-- ===== src/Proto/Channels.antt =====
-- The packs of locations, channels, scenes and values, of suplalite/proto.py.
use suplalite.Common.{true}
use suplalite.Python.Word.{int16, int32, uint8, uint16, uint32, uint64}
use suplalite.Encoding.Schema.{
  Class, int, bool, int_flag, enum, c_int, c_bytes_size, c_string_max, c_packed_array, nested, nil,
  field,
}
use suplalite.Proto.Constants.{
  channel_caption_maxsize, channelpack_maxcount, channelvalue_pack_maxcount, scene_caption_maxsize,
  scene_pack_maxcount, channel_relation_pack_maxcount, channelvalue_size,
}
use suplalite.Proto.Enums.{channel_type, channel_func, channel_relation_type, values}

abbrev pub channel_value : Class
channel_value =
    field "value" true (c_bytes_size channelvalue_size)
      (field "sub_value" true (c_bytes_size channelvalue_size) nil)

abbrev pub channel_value_b : Class
channel_value_b = field "value" true (c_bytes_size channelvalue_size) (
    field "sub_value" true (c_bytes_size channelvalue_size)
      (field "sub_value_type" true (c_int uint8 int) nil))

abbrev pub tsc_channel : Class
tsc_channel = field "eol" true (c_int uint8 bool) (
    field "id" true (c_int int32 int) (
      field "location_id" true (c_int int32 int) (
        field "func" true (c_int uint32 (enum (values channel_func))) (
          field "online" true (c_int uint8 bool) (
            field "value" true (nested channel_value)
              (field "caption" true (c_string_max int32 channel_caption_maxsize true) nil))))))

abbrev pub tsc_channel_e : Class
tsc_channel_e = field "eol" true (c_int uint8 bool) (
    field "id" true (c_int int32 int) (
      field "device_id" true (c_int int32 int) (
        field "location_id" true (c_int int32 int) (
          field "type" true (c_int uint32 (enum (values channel_type))) (
            field "func" true (c_int uint32 (enum (values channel_func))) (
              field "alt_icon" true (c_int int32 int) (
                field "user_icon" true (c_int int32 int) (
                  field "manufacturer_id" true (c_int int16 int) (
                    field "product_id" true (c_int int16 int) (
                      field "default_config_crc32" true (c_int uint32 int) (
                        field "flags" true (c_int uint64 int_flag) (
                          field "protocol_version" true (c_int uint8 int) (
                            field "online" true (c_int uint8 bool) (
                              field "value" true (nested channel_value_b) (
                                field "caption" true
                                  (c_string_max int32 channel_caption_maxsize true)
                                  nil)))))))))))))))

abbrev pub tsc_channel_pack_e : Class
tsc_channel_pack_e =
    field "total_left" true (c_int int32 int)
      (field "items" true (c_packed_array int32 channelpack_maxcount 1 tsc_channel_e) nil)

abbrev pub tsc_channel_relation : Class
tsc_channel_relation = field "eol" true (c_int uint8 bool) (
    field "id" true (c_int int32 int) (
      field "parent_id" true (c_int int32 int)
        (field "type" true (c_int uint16 (enum (values channel_relation_type))) nil)))

abbrev pub tsc_channel_relation_pack : Class
tsc_channel_relation_pack = field "total_left" true (c_int int32 int) (
    field "items" true (c_packed_array int32 channel_relation_pack_maxcount 1 tsc_channel_relation)
      nil)

abbrev pub tsc_scene : Class
tsc_scene = field "eol" true (c_int uint8 bool) (
    field "id" true (c_int int32 int) (
      field "location_id" true (c_int int32 int) (
        field "alt_icon" true (c_int int32 int) (
          field "user_icon" true (c_int int32 int)
            (field "caption" true (c_string_max int16 scene_caption_maxsize true) nil)))))

abbrev pub tsc_scene_pack : Class
tsc_scene_pack =
    field "total_left" true (c_int int32 int)
      (field "items" true (c_packed_array int32 scene_pack_maxcount 1 tsc_scene) nil)

abbrev pub tsc_channel_value : Class
tsc_channel_value =
    field "eol" true (c_int uint8 bool)
      (field "id" true (c_int int32 int) (field "online" true (c_int uint8 bool) nil))

abbrev pub tsc_channel_value_b : Class
tsc_channel_value_b = field "eol" true (c_int uint8 bool) (
    field "id" true (c_int int32 int)
      (field "online" true (c_int uint8 bool) (field "value" true (nested channel_value_b) nil)))

abbrev pub tsc_channel_value_pack_b : Class
tsc_channel_value_pack_b =
    field "total_left" true (c_int int32 int) (
      field "items" true (c_packed_array int32 channelvalue_pack_maxcount 1 tsc_channel_value_b)
        nil)
