-- ===== src/Proto/Packets.antt =====
-- The packet that carries a call, of suplalite/proto.py.
use suplalite.Common.{true, false}
use suplalite.Python.Word.{uint8, uint32}
use suplalite.Encoding.Schema.{Class, int, enum, c_int, c_bytes_value, c_bytes_max, nil, field}
use suplalite.Proto.Constants.{tag, max_data_size}
use suplalite.Proto.Enums.{values}
use suplalite.Proto.Calls.{call}

abbrev pub data_packet : Class
data_packet = field "start_tag" false (c_bytes_value tag) (
    field "version" true (c_int uint8 int) (
      field "rr_id" true (c_int uint32 int) (
        field "call_id" true (c_int uint32 (enum (values call))) (
          field "data" true (c_bytes_max uint32 max_data_size)
            (field "end_tag" false (c_bytes_value tag) nil)))))
