-- ===== src/Proto/Devices.antt =====
-- The messages between devices and the server, and those that both sides share, of suplalite/proto.py.
use suplalite.Common.{true}
use suplalite.Python.Word.{int16, uint8, uint32, uint64}
use suplalite.Encoding.Schema.{
  Class, int, int_flag, enum, c_int, c_bytes_size, c_string_size, c_packed_array, nil, field,
}
use suplalite.Proto.Constants.{
  channelmaxcount, softver_maxsize, guid_size, server_name_maxsize, email_maxsize, authkey_size,
  device_name_maxsize,
}
use suplalite.Proto.Enums.{channel_type, channel_func, values}

abbrev pub time_val : Class
time_val = field "tv_sec" true (c_int uint64 int) (field "tv_usec" true (c_int uint64 int) nil)

abbrev pub action_trigger_properties : Class
action_trigger_properties =
    field "related_channel_number" true (c_int uint8 int)
      (field "disables_local_operation" true (c_int uint32 int) nil)

abbrev pub tds_device_channel_c : Class
tds_device_channel_c = field "number" true (c_int uint8 int) (
    field "type" true (c_int uint32 (enum (values channel_type))) (
      field "action_trigger_caps" true (c_int uint32 int_flag) (
        field "default_func" true (c_int uint32 (enum (values channel_func)))
          (field "flags" true (c_int uint32 int_flag) (field "value" true (c_bytes_size 8) nil)))))

abbrev pub tds_register_device_e : Class
tds_register_device_e = field "email" true (c_string_size email_maxsize) (
    field "authkey" true (c_bytes_size authkey_size) (
      field "guid" true (c_bytes_size guid_size) (
        field "name" true (c_string_size device_name_maxsize) (
          field "soft_ver" true (c_string_size softver_maxsize) (
            field "server_name" true (c_string_size server_name_maxsize) (
              field "flags" true (c_int uint32 int_flag) (
                field "manufacturer_id" true (c_int int16 int) (
                  field "product_id" true (c_int int16 int) (
                    field "channels" true
                      (c_packed_array uint8 channelmaxcount 0 tds_device_channel_c) nil)))))))))
