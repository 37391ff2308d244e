-- ===== src/Proto/Enums/Codes.antt =====
-- The result codes, actions and settings of suplalite/proto.py.
use suplalite.Common.{ℕ, String, List, [], ◌∷◌}

abbrev pub result_code : List (String × ℕ)
result_code =
    ("NONE", 0)
    ∷ ("UNSUPORTED", 1)
    ∷ ("FALSE", 2)
    ∷ ("TRUE", 3)
    ∷ ("TEMPORARILY_UNAVAILABLE", 4)
    ∷ ("BAD_CREDENTIALS", 5)
    ∷ ("LOCATION_CONFLICT", 6)
    ∷ ("CHANNEL_CONFLICT", 7)
    ∷ ("DEVICE_DISABLED", 8)
    ∷ ("ACCESSID_DISABLED", 9)
    ∷ ("LOCATION_DISABLED", 10)
    ∷ ("CLIENT_DISABLED", 11)
    ∷ ("CLIENT_LIMITEXCEEDED", 12)
    ∷ ("DEVICE_LIMITEXCEEDED", 13)
    ∷ ("GUID_ERROR", 14)
    ∷ ("DEVICE_LOCKED", 15)
    ∷ ("REGISTRATION_DISABLED", 17)
    ∷ ("ACCESSID_NOT_ASSIGNED", 18)
    ∷ ("AUTHKEY_ERROR", 19)
    ∷ ("NO_LOCATION_AVAILABLE", 20)
    ∷ ("USER_CONFLICT", 21)
    ∷ ("UNAUTHORIZED", 22)
    ∷ ("AUTHORIZED", 23)
    ∷ ("NOT_ALLOWED", 24)
    ∷ ("CHANNELNOTFOUND", 25)
    ∷ ("UNKNOWN_ERROR", 26)
    ∷ ("DENY_CHANNEL_BELONG_TO_GROUP", 27)
    ∷ ("DENY_CHANNEL_HAS_SCHEDULE", 28)
    ∷ ("DENY_CHANNEL_IS_ASSOCIETED_WITH_SCENE", 29)
    ∷ ("DENY_CHANNEL_IS_ASSOCIETED_WITH_ACTION_TRIGGER", 30)
    ∷ ("ACCESSID_INACTIVE", 31)
    ∷ ("CFG_MODE_REQUESTED", 32)
    ∷ ("ACTION_UNSUPPORTED", 33)
    ∷ ("SUBJECT_NOT_FOUND", 34)
    ∷ ("INCORRECT_PARAMETERS", 35)
    ∷ ("CLIENT_NOT_EXISTS", 36)
    ∷ ("COUNTRY_REJECTED", 37)
    ∷ ("CHANNEL_IS_OFFLINE", 38)
    ∷ ("NOT_REGISTERED", 39)
    ∷ ("DENY_CHANNEL_IS_ASSOCIETED_WITH_VBT", 40)
    ∷ ("DENY_CHANNEL_IS_ASSOCIETED_WITH_PUSH", 41)
    ∷ ("RESTART_REQUESTED", 42)
    ∷ ("IDENTIFY_REQUESTED", 43)
    ∷ ("MALFORMED_EMAIL", 44)
    ∷ []

abbrev pub target : List (String × ℕ)
target = ("CHANNEL", 0) ∷ ("GROUP", 1) ∷ ("IODEVICE", 2) ∷ []

abbrev pub platform : List (String × ℕ)
platform = ("UNKNOWN", 0) ∷ ("IOS", 1) ∷ ("ANDROID", 2) ∷ ("HOMEGRAPH", 3) ∷ []

abbrev pub channel_relation_type : List (String × ℕ)
channel_relation_type =
    ("DEFAULT", 0)
    ∷ ("OPENING_SENSOR", 1)
    ∷ ("PARTIAL_OPENING_SENSOR", 2)
    ∷ ("METER", 3)
    ∷ ("MAIN_TERMOMETER", 4)
    ∷ ("AUX_THERMOMETER_FLOOR", 5)
    ∷ ("AUX_THERMOMETER_WATER", 6)
    ∷ ("AUX_THERMOMETER_GENERIC_HEATER", 7)
    ∷ ("AUX_THERMOMETER_GENERIC_COOLER", 8)
    ∷ ("MASTER_THERMOSTAT", 20)
    ∷ ("HEAT_OR_COLD_SOURCE_SWITCH", 21)
    ∷ ("PUMP_SWITCH", 22)
    ∷ []

abbrev pub action_subject_type : List (String × ℕ)
action_subject_type =
    ("UNKNOWN", 0) ∷ ("CHANNEL", 1) ∷ ("CHANNEL_GROUP", 2) ∷ ("SCENE", 3) ∷ ("SCHEDULE", 4) ∷ []

abbrev pub action_type : List (String × ℕ)
action_type =
    ("OPEN", 10)
    ∷ ("CLOSE", 20)
    ∷ ("SHUT", 30)
    ∷ ("REVEAL", 40)
    ∷ ("REVEAL_PARTIALLY", 50)
    ∷ ("SHUT_PARTIALLY", 51)
    ∷ ("TURN_ON", 60)
    ∷ ("TURN_ON_WITH_DURATION", 61)
    ∷ ("TURN_OFF", 70)
    ∷ ("TURN_OFF_WITH_DURATION", 71)
    ∷ ("SET_RGBW_PARAMETERS", 80)
    ∷ ("OPEN_CLOSE", 90)
    ∷ ("STOP", 100)
    ∷ ("TOGGLE", 110)
    ∷ ("UP_OR_STOP", 140)
    ∷ ("DOWN_OR_STOP", 150)
    ∷ ("STEP_BY_STEP", 160)
    ∷ ("UP", 170)
    ∷ ("DOWN", 180)
    ∷ ("ENABLE", 200)
    ∷ ("DISABLE", 210)
    ∷ ("SEND", 220)
    ∷ ("READ", 1000)
    ∷ ("SET", 2000)
    ∷ ("EXECUTE", 3000)
    ∷ ("INTERRUPT", 3001)
    ∷ ("INTERRUPT_AND_EXECUTE", 3002)
    ∷ ("COPY", 10100)
    ∷ ("FORWARD_OUTSIDE", 10000)
    ∷ []

abbrev pub channel_state_field : List (String × ℕ)
channel_state_field =
    ("NONE", 0)
    ∷ ("IPV4", 0x0001)
    ∷ ("MAC", 0x0002)
    ∷ ("BATTERYLEVEL", 0x0004)
    ∷ ("BATTERYPOWERED", 0x0008)
    ∷ ("WIFIRSSI", 0x0010)
    ∷ ("WIFISIGNALSTRENGTH", 0x0020)
    ∷ ("BRIDGENODESIGNALSTRENGTH", 0x0040)
    ∷ ("UPTIME", 0x0080)
    ∷ ("CONNECTIONUPTIME", 0x0100)
    ∷ ("BATTERYHEALTH", 0x0200)
    ∷ ("BRIDGENODEONLINE", 0x0400)
    ∷ ("LASTCONNECTIONRESETCAUSE", 0x0800)
    ∷ ("LIGHTSOURCELIFESPAN", 0x1000)
    ∷ ("LIGHTSOURCEOPERATINGTIME", 0x2000)
    ∷ ("OPERATINGTIME", 0x4000)
    ∷ ("SWITCHCYCLECOUNT", 0x8000)
    ∷ ("DEVICE_BATTERYLEVEL", 0x10000)
    ∷ []

abbrev pub oauth_result_code : List (String × ℕ)
oauth_result_code = ("ERROR", 0) ∷ ("SUCCESS", 1) ∷ ("TEMPORARILY_UNAVAILABLE", 2) ∷ []

abbrev pub relay_flag : List (String × ℕ)
relay_flag = ("NONE", 0) ∷ ("OVERCURRENT_RELAY_OFF", 0x1) ∷ []

abbrev pub channel_config_request_flag : List (String × ℕ)
channel_config_request_flag = ("NONE", 0) ∷ []

abbrev pub config_type : List (String × ℕ)
config_type =
    ("DEFAULT", 0)
    ∷ ("WEEKLY_SCHEDULE", 2)
    ∷ ("ALT_WEEKLY_SCHEDULE", 3)
    ∷ ("OCR", 4)
    ∷ ("EXTENDED", 5)
    ∷ []

abbrev pub config_result : List (String × ℕ)
config_result =
    ("FALSE", 0)
    ∷ ("TRUE", 1)
    ∷ ("DATA_ERROR", 2)
    ∷ ("TYPE_NOT_SUPPORTED", 3)
    ∷ ("FUNCTION_NOT_SUPPORTED", 4)
    ∷ ("LOCAL_CONFIG_DISABLED", 5)
    ∷ ("NOT_ALLOWED", 6)
    ∷ ("DEVICE_NOT_FOUND", 7)
    ∷ []

abbrev pub general_purpose_measurement_chart_type : List (String × ℕ)
general_purpose_measurement_chart_type = ("LINEAR", 0) ∷ ("BAR", 1) ∷ ("CANDLE", 2) ∷ []
