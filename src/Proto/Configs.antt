-- ===== src/Proto/Configs.antt =====
-- The configuration messages, of suplalite/proto.py.
use suplalite.Common.{true, false}
use suplalite.Python.Word.{int16, int32, int64, uint8, uint16, uint32}
use suplalite.Encoding.Schema.{
  Class, int, bool, int_flag, enum, c_int, c_bytes_size, c_bytes_max, c_string_size, nested, nil,
  field,
}
use suplalite.Proto.Constants.{
  calcfg_data_maxsize, general_purpose_unit_size, channel_config_maxsize,
}
use suplalite.Proto.Enums.{
  channel_func, config_type, config_result, general_purpose_measurement_chart_type, values,
}

abbrev pub tcs_device_cal_cfg_request_b : Class
tcs_device_cal_cfg_request_b = field "channel_id" true (c_int int32 int) (
    field "target" true (c_int uint8 int) (
      field "command" true (c_int int32 int) (
        field "datatype" true (c_int int32 int)
          (field "data" true (c_bytes_max uint32 calcfg_data_maxsize) nil))))

abbrev pub tsc_device_cal_cfg_result : Class
tsc_device_cal_cfg_result = field "channel_id" true (c_int int32 int) (
    field "command" true (c_int int32 int) (
      field "result" true (c_int int32 int)
        (field "data" true (c_bytes_max uint32 calcfg_data_maxsize) nil)))

abbrev pub tsd_device_cal_cfg_request : Class
tsd_device_cal_cfg_request = field "sender_id" true (c_int int32 int) (
    field "channel_number" true (c_int int32 int) (
      field "command" true (c_int int32 int) (
        field "super_user_authorized" true (c_int uint8 bool) (
          field "datatype" true (c_int int32 int)
            (field "data" true (c_bytes_max uint32 calcfg_data_maxsize) nil)))))

abbrev pub tds_device_cal_cfg_result : Class
tds_device_cal_cfg_result = field "receiver_id" true (c_int int32 int) (
    field "channel_number" true (c_int int32 int) (
      field "command" true (c_int int32 int) (
        field "result" true (c_int int32 int)
          (field "data" true (c_bytes_max uint32 calcfg_data_maxsize) nil))))

abbrev pub tcs_get_channel_config_request : Class
tcs_get_channel_config_request = field "channel_id" true (c_int int32 int) (
    field "config_type" true (c_int uint8 (enum (values config_type)))
      (field "flags" true (c_int uint32 int_flag) nil))

abbrev pub tscs_channel_config : Class
tscs_channel_config = field "channel_id" true (c_int int32 int) (
    field "func" true (c_int uint32 (enum (values channel_func))) (
      field "config_type" true (c_int uint8 (enum (values config_type)))
        (field "config" true (c_bytes_max uint16 channel_config_maxsize) nil)))

abbrev pub tsc_channel_config_update_or_result : Class
tsc_channel_config_update_or_result =
    field "result" true (c_int uint8 (enum (values config_result)))
      (field "config" true (nested tscs_channel_config) nil)

abbrev pub tchannel_config_temperature_and_humidity : Class
tchannel_config_temperature_and_humidity = field "temperature_adjustment" true (c_int int16 int) (
    field "humidity_adjustment" true (c_int int16 int) (
      field "adjustment_applied_by_device" true (c_int uint8 bool) (
        field "min_temperature_adjustment" true (c_int int16 int) (
          field "max_temperature_adjustment" true (c_int int16 int) (
            field "min_humidity_adjustment" true (c_int int16 int) (
              field "max_humidity_adjustment" true (c_int int16 int)
                (field "reserved" false (c_bytes_size 19) nil)))))))

abbrev pub tchannel_config_general_purpose_measurement : Class
tchannel_config_general_purpose_measurement = field "value_divider" true (c_int int32 int) (
    field "value_multiplier" true (c_int int32 int) (
      field "value_added" true (c_int int64 int) (
        field "value_precision" true (c_int uint8 int) (
          field "unit_before_value" true (c_string_size general_purpose_unit_size) (
            field "unit_after_value" true (c_string_size general_purpose_unit_size) (
              field "no_space_before_value" true (c_int uint8 bool) (
                field "no_space_after_value" true (c_int uint8 bool) (
                  field "keep_history" true (c_int uint8 bool) (
                    field "chart_type" true
                      (c_int uint8 (enum (values general_purpose_measurement_chart_type)))
                      (field "refresh_interval_ms" true (c_int uint16 int) (
                        field "default_value_divider" true (c_int int32 int) (
                          field "default_value_multiplier" true (c_int int32 int) (
                            field "default_value_added" true (c_int int64 int) (
                              field "default_value_precision" true (c_int uint8 int) (
                                field "default_unit_before_value" true
                                  (c_string_size general_purpose_unit_size)
                                  (field "default_unit_after_value" true
                                    (c_string_size general_purpose_unit_size)
                                    (field "reserved" false (c_bytes_size 8) nil)))))))))))))))))
