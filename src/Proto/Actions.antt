-- ===== src/Proto/Actions.antt =====
-- The messages with which clients act on channels, of suplalite/proto.py.
use suplalite.Common.{true, false}
use suplalite.Python.Word.{int8, int32, uint8, uint16, uint32}
use suplalite.Encoding.Schema.{
  Class, int, bool, int_flag, enum, c_int, c_bytes_size, c_bytes_max, nil, field,
}
use suplalite.Proto.Constants.{action_param_maxsize, channelvalue_size}
use suplalite.Proto.Enums.{result_code, target, action_subject_type, action_type, values}

abbrev pub tcs_action : Class
tcs_action = field "action_id" true (c_int uint32 (enum (values action_type))) (
    field "subject_id" true (c_int int32 int) (
      field "subject_type" true (c_int uint8 (enum (values action_subject_type)))
        (field "param" true (c_bytes_max uint16 action_param_maxsize) nil)))

abbrev pub taction_rgbw_parameters : Class
taction_rgbw_parameters = field "brightness" true (c_int uint8 int) (
    field "color_brightness" true (c_int uint8 int) (
      field "color" true (c_int int32 int) (
        field "color_random" true (c_int uint8 bool)
          (field "on_off" true (c_int uint8 bool) (field "padding" false (c_bytes_size 8) nil)))))

abbrev pub tsc_action_execution_result : Class
tsc_action_execution_result = field "result_code" true (c_int uint8 (enum (values result_code))) (
    field "action_id" true (c_int uint32 (enum (values action_type))) (
      field "subject_id" true (c_int int32 int)
        (field "subject_type" true (c_int uint32 (enum (values action_subject_type))) nil)))

abbrev pub tcs_new_value : Class
tcs_new_value = field "value_id" true (c_int int32 int) (
    field "target" true (c_int uint8 (enum (values target)))
      (field "value" true (c_bytes_size channelvalue_size) nil))

abbrev pub tsdc_registration_enabled : Class
tsdc_registration_enabled =
    field "client_timestamp" true (c_int uint32 int)
      (field "iodevice_timestamp" true (c_int uint32 int) nil)

abbrev pub tcs_channel_state_request : Class
tcs_channel_state_request =
    field "sender_id" true (c_int int32 int) (field "channel_id" true (c_int uint32 int) nil)

abbrev pub tsd_channel_state_request : Class
tsd_channel_state_request =
    field "sender_id" true (c_int int32 int)
      (field "channel_number" true (c_int uint8 int) (field "padding" false (c_bytes_size 3) nil))

abbrev pub tds_channel_state : Class
tds_channel_state = field "receiver_id" true (c_int int32 int) (
    field "channel_number" true (c_int uint8 int) (
      field "padding" false (c_bytes_size 3) (
        field "fields" true (c_int uint32 int_flag) (
          field "default_icon_field" true (c_int int32 int) (
            field "ipv4" true (c_int uint32 int) (
              field "mac" true (c_bytes_size 6) (
                field "battery_level" true (c_int uint8 int) (
                  field "battery_powered" true (c_int uint8 bool) (
                    field "wifi_rssi" true (c_int int8 int) (
                      field "wifi_signal_strength" true (c_int uint8 int) (
                        field "bridge_node_online" true (c_int uint8 bool) (
                          field "bridge_node_signal_strength" true (c_int uint8 int) (
                            field "uptime" true (c_int uint32 int) (
                              field "connected_uptime" true (c_int uint32 int) (
                                field "battery_health" true (c_int uint8 int) (
                                  field "last_connection_reset_cause" true (c_int uint8 int) (
                                    field "light_source_lifespan" true (c_int uint16 int) (
                                      field "light_source_operating_time" true (c_int int32 int)
                                        (field "empty" false (c_bytes_size 2) nil)))))))))))))))))))
