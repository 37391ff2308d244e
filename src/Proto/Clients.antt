-- ===== src/Proto/Clients.antt =====
-- The messages with which clients register and authorise, of suplalite/proto.py.
use suplalite.Common.{true, false}
use suplalite.Python.Word.{int8, int16, int32, uint8, uint16, uint32}
use suplalite.Encoding.Schema.{
  Class, int, bool, enum, c_int, c_bytes_size, c_string_size, c_string_max, c_packed_array, nested,
  nil, field,
}
use suplalite.Proto.Constants.{
  softver_maxsize, guid_size, accessid_pwd_maxsize, location_caption_maxsize, locationpack_maxcount,
  server_name_maxsize, email_maxsize, password_maxsize, authkey_size, device_name_maxsize,
  pn_profile_name_maxsize, pn_client_token_maxsize,
}
use suplalite.Proto.Enums.{result_code, platform, values}
use suplalite.Proto.Devices.{time_val}

abbrev pub tsd_register_device_result : Class
tsd_register_device_result = field "result_code" true (c_int uint32 (enum (values result_code))) (
    field "activity_timeout" true (c_int uint8 int)
      (field "version" true (c_int uint8 int) (field "version_min" true (c_int uint8 int) nil)))

abbrev pub tdcs_ping_server : Class
tdcs_ping_server = field "now" true (nested time_val) nil

abbrev pub tsdc_ping_server_result : Class
tsdc_ping_server_result = field "now" true (nested time_val) nil

abbrev pub tdcs_set_activity_timeout : Class
tdcs_set_activity_timeout = field "activity_timeout" true (c_int uint8 int) nil

abbrev pub tsdc_set_activity_timeout_result : Class
tsdc_set_activity_timeout_result =
    field "activity_timeout" true (c_int uint8 int)
      (field "min" true (c_int uint8 int) (field "max" true (c_int uint8 int) nil))

abbrev pub tsd_channel_new_value : Class
tsd_channel_new_value = field "sender_id" true (c_int int32 int) (
    field "channel_number" true (c_int uint8 int)
      (field "duration_ms" true (c_int uint32 int) (field "value" true (c_bytes_size 8) nil)))

abbrev pub tds_channel_new_value_result : Class
tds_channel_new_value_result =
    field "channel_number" true (c_int uint8 int)
      (field "sender_id" true (c_int int32 int) (field "success" true (c_int uint8 bool) nil))

abbrev pub tds_device_channel_value : Class
tds_device_channel_value =
    field "channel_number" true (c_int uint8 int) (field "value" true (c_bytes_size 8) nil)

abbrev pub tds_device_channel_value_c : Class
tds_device_channel_value_c = field "channel_number" true (c_int uint8 int) (
    field "offline" true (c_int uint8 bool)
      (field "validity_time_sec" true (c_int uint32 int) (field "value" true (c_bytes_size 8) nil)))

abbrev pub tcs_register_client_d : Class
tcs_register_client_d = field "email" true (c_string_size email_maxsize) (
    field "password" true (c_string_size password_maxsize) (
      field "authkey" true (c_bytes_size authkey_size) (
        field "guid" true (c_bytes_size guid_size) (
          field "name" true (c_string_size device_name_maxsize) (
            field "soft_ver" true (c_string_size softver_maxsize)
              (field "server_name" true (c_string_size server_name_maxsize) nil))))))

abbrev pub tsc_register_client_result_d : Class
tsc_register_client_result_d = field "result_code" true (c_int uint32 (enum (values result_code))) (
    field "client_id" true (c_int int32 int) (
      field "location_count" true (c_int int16 int) (
        field "channel_count" true (c_int int16 int) (
          field "channel_group_count" true (c_int int16 int) (
            field "scene_count" true (c_int int16 int) (
              field "flags" false (c_bytes_size 4) (
                field "activity_timeout" true (c_int uint8 int) (
                  field "version" true (c_int uint8 int) (
                    field "version_min" true (c_int uint8 int)
                      (field "server_unix_timestamp" true (c_int uint32 int) nil))))))))))

abbrev pub tcs_client_authorization_details : Class
tcs_client_authorization_details = field "access_id" true (c_int int32 int) (
    field "access_id_pwd" true (c_string_size accessid_pwd_maxsize) (
      field "email" true (c_string_size email_maxsize) (
        field "authkey" true (c_bytes_size authkey_size) (
          field "guid" true (c_bytes_size guid_size)
            (field "server_name" true (c_string_size server_name_maxsize) nil)))))

abbrev pub tcs_pn_client_token : Class
tcs_pn_client_token = field "development_env" true (c_int int8 int) (
    field "platform" true (c_int uint32 (enum (values platform))) (
      field "app_id" true (c_int int32 int) (
        field "profile_name" true (c_string_size pn_profile_name_maxsize) (
          field "real_token_size" true (c_int uint16 int)
            (field "token" true (c_string_max uint16 pn_client_token_maxsize true) nil)))))

abbrev pub tcs_register_pn_client_token : Class
tcs_register_pn_client_token =
    field "auth" true (nested tcs_client_authorization_details)
      (field "token" true (nested tcs_pn_client_token) nil)

abbrev pub tsc_register_pn_client_token_result : Class
tsc_register_pn_client_token_result =
    field "result_code" true (c_int uint32 (enum (values result_code))) nil

abbrev pub tcs_super_user_authorization_request : Class
tcs_super_user_authorization_request =
    field "email" true (c_string_size email_maxsize)
      (field "password" true (c_string_size password_maxsize) nil)

abbrev pub tsc_super_user_authorization_result : Class
tsc_super_user_authorization_result =
    field "result" true (c_int uint32 (enum (values result_code))) nil

abbrev pub tsc_location : Class
tsc_location = field "eol" true (c_int uint8 bool) (
    field "id" true (c_int int32 int)
      (field "caption" true (c_string_max int32 location_caption_maxsize true) nil))

abbrev pub tsc_location_pack : Class
tsc_location_pack =
    field "total_left" true (c_int int32 int)
      (field "items" true (c_packed_array int32 locationpack_maxcount 1 tsc_location) nil)
