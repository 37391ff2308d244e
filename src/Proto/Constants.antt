-- ===== src/Proto/Constants.antt =====
-- The constants of suplalite/proto.py.
use suplalite.Common.{ℕ, ◌-◌, [], ◌∷◌}
use suplalite.Python.Bytes.{Bytes}

abbrev pub activity_timeout_min : ℕ
activity_timeout_min = 30

abbrev pub activity_timeout_max : ℕ
activity_timeout_max = 240

abbrev pub activity_timeout_default : ℕ
activity_timeout_default = 120

abbrev pub channelmaxcount : ℕ
channelmaxcount = 128

-- b"SUPLA"
abbrev pub tag : Bytes
tag = b'S' ∷ b'U' ∷ b'P' ∷ b'L' ∷ b'A' ∷ []

abbrev pub proto_version : ℕ
proto_version = 23

abbrev pub proto_version_min : ℕ
proto_version_min = 1

abbrev pub max_data_size : ℕ
max_data_size = 10240

abbrev pub rc_max_dev_count : ℕ
rc_max_dev_count = 50

abbrev pub softver_maxsize : ℕ
softver_maxsize = 21

abbrev pub caption_maxsize : ℕ
caption_maxsize = 401

abbrev pub guid_size : ℕ
guid_size = 16

abbrev pub guid_hexsize : ℕ
guid_hexsize = 33

abbrev pub location_pwd_maxsize : ℕ
location_pwd_maxsize = 33

abbrev pub accessid_pwd_maxsize : ℕ
accessid_pwd_maxsize = 33

abbrev pub location_caption_maxsize : ℕ
location_caption_maxsize = caption_maxsize

abbrev pub locationpack_maxcount : ℕ
locationpack_maxcount = 20

abbrev pub channel_caption_maxsize : ℕ
channel_caption_maxsize = caption_maxsize

abbrev pub channel_group_caption_maxsize : ℕ
channel_group_caption_maxsize = caption_maxsize

abbrev pub channelpack_maxcount : ℕ
channelpack_maxcount = 20

abbrev pub url_host_maxsize : ℕ
url_host_maxsize = 101

abbrev pub url_path_maxsize : ℕ
url_path_maxsize = 101

abbrev pub server_name_maxsize : ℕ
server_name_maxsize = 65

abbrev pub email_maxsize : ℕ
email_maxsize = 256

abbrev pub password_maxsize : ℕ
password_maxsize = 64

abbrev pub authkey_size : ℕ
authkey_size = 16

abbrev pub authkey_hexsize : ℕ
authkey_hexsize = 33

abbrev pub oauth_token_maxsize : ℕ
oauth_token_maxsize = 256

abbrev pub channelgroup_pack_maxcount : ℕ
channelgroup_pack_maxcount = 20

abbrev pub channelgroup_caption_maxsize : ℕ
channelgroup_caption_maxsize = 401

abbrev pub channelvalue_pack_maxcount : ℕ
channelvalue_pack_maxcount = 20

abbrev pub channelextendedvalue_pack_maxcount : ℕ
channelextendedvalue_pack_maxcount = 5

abbrev pub channelextendedvalue_pack_maxdatasize : ℕ
channelextendedvalue_pack_maxdatasize = max_data_size - 50

abbrev pub calcfg_data_maxsize : ℕ
calcfg_data_maxsize = 128

abbrev pub timezone_maxsize : ℕ
timezone_maxsize = 51

abbrev pub action_param_maxsize : ℕ
action_param_maxsize = 500

abbrev pub scene_caption_maxsize : ℕ
scene_caption_maxsize = caption_maxsize

abbrev pub scene_pack_maxcount : ℕ
scene_pack_maxcount = 20

abbrev pub scene_state_pack_maxcount : ℕ
scene_state_pack_maxcount = 20

abbrev pub channel_relation_pack_maxcount : ℕ
channel_relation_pack_maxcount = 100

abbrev pub device_name_maxsize : ℕ
device_name_maxsize = 201

abbrev pub client_name_maxsize : ℕ
client_name_maxsize = 201

abbrev pub sender_name_maxsize : ℕ
sender_name_maxsize = 201

abbrev pub initiator_name_maxsize : ℕ
initiator_name_maxsize = sender_name_maxsize

abbrev pub channelvalue_size : ℕ
channelvalue_size = 8

abbrev pub pn_title_maxsize : ℕ
pn_title_maxsize = 101

abbrev pub pn_body_maxsize : ℕ
pn_body_maxsize = 256

abbrev pub pn_profile_name_maxsize : ℕ
pn_profile_name_maxsize = 51

abbrev pub pn_client_token_maxsize : ℕ
pn_client_token_maxsize = 256

abbrev pub general_purpose_unit_size : ℕ
general_purpose_unit_size = 15

abbrev pub temperature_not_available_int : ℕ
temperature_not_available_int = 0xfffbcdc8

abbrev pub humidity_not_available : ℕ
humidity_not_available = 0xfffffc18

abbrev pub channel_config_maxsize : ℕ
channel_config_maxsize = 512
