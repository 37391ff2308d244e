-- ===== src/Proto/States.antt =====
-- The channel states, of suplalite/proto.py.
use suplalite.Common.{true, false}
use suplalite.Python.Word.{int8, int32, uint8, uint16, uint32}
use suplalite.Encoding.Schema.{
  Class, int, bool, int_flag, enum, c_int, c_bytes_size, c_bytes_max, nested, nil, field,
}
use suplalite.Proto.Constants.{oauth_token_maxsize}
use suplalite.Proto.Enums.{oauth_result_code, values}

abbrev pub tsc_channel_state : Class
tsc_channel_state = field "receiver_id" true (c_int int32 int) (
    field "channel_id" true (c_int int32 int) (
      field "fields" true (c_int uint32 int_flag) (
        field "default_icon_field" true (c_int int32 int) (
          field "ipv4" true (c_int uint32 int) (
            field "mac" true (c_bytes_size 6) (
              field "battery_level" true (c_int uint8 int) (
                field "battery_powered" true (c_int uint8 bool) (
                  field "wifi_rssi" true (c_int int8 int) (
                    field "wifi_signal_strength" true (c_int uint8 int) (
                      field "bridge_node_online" true (c_int uint8 bool) (
                        field "bridge_node_signal_strength" true (c_int uint8 int) (
                          field "uptime" true (c_int uint32 int) (
                            field "connected_uptime" true (c_int uint32 int) (
                              field "battery_health" true (c_int uint8 int) (
                                field "last_connection_reset_cause" true (c_int uint8 int) (
                                  field "light_source_lifespan" true (c_int uint16 int) (
                                    field "light_source_operating_time" true (c_int int32 int)
                                      (field "empty" false (c_bytes_size 2) nil))))))))))))))))))

abbrev pub tsc_oauth_token : Class
tsc_oauth_token =
    field "expires_in" true (c_int uint32 int)
      (field "token" true (c_bytes_max int32 oauth_token_maxsize) nil)

abbrev pub tsc_oauth_token_request_result : Class
tsc_oauth_token_request_result =
    field "result_code" true (c_int uint8 (enum (values oauth_result_code)))
      (field "token" true (nested tsc_oauth_token) nil)
