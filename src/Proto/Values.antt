-- ===== src/Proto/Values.antt =====
-- The eight bytes of a channel value, for each type of channel, of suplalite/proto.py.
use suplalite.Common.{true, false}
use suplalite.Python.Word.{uint8, uint16, uint32}
use suplalite.Encoding.Schema.{
  Class, int, bool, int_flag, c_int, c_double, c_bytes_size, nil, field,
}

abbrev pub trelay_channel_value : Class
trelay_channel_value =
    field "on" true (c_int uint8 bool)
      (field "flags" true (c_int uint16 int_flag) (field "padding" false (c_bytes_size 5) nil))

abbrev pub ttemperature_channel_value : Class
ttemperature_channel_value = field "value" true c_double nil

abbrev pub ttemperature_and_humidity_channel_value : Class
ttemperature_and_humidity_channel_value =
    field "temperature" true (c_int uint32 int) (field "humidity" true (c_int uint32 int) nil)

abbrev pub tgeneral_purpose_measurement_channel_value : Class
tgeneral_purpose_measurement_channel_value = field "value" true c_double nil

abbrev pub tdimmer_channel_value : Class
tdimmer_channel_value =
    field "brightness" true (c_int uint8 int) (field "padding" false (c_bytes_size 7) nil)

abbrev pub trgbdimmer_channel_value : Class
trgbdimmer_channel_value = field "brightness" true (c_int uint8 int) (
    field "color_brightness" true (c_int uint8 int) (
      field "b" true (c_int uint8 int) (
        field "g" true (c_int uint8 int) (
          field "r" true (c_int uint8 int) (
            field "on_off" true (c_int uint8 bool) (
              field "command" true (c_int uint8 int)
                (field "padding" false (c_bytes_size 1) nil)))))))
