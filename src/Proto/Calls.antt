-- ===== src/Proto/Calls.antt =====
-- `Call` of suplalite/proto.py: the name and the number of each call.
use suplalite.Common.{ℕ, String, List, [], ◌∷◌}

abbrev pub call : List (String × ℕ)
call =
    ("DCS_GETVERSION", 10)
    ∷ ("SDC_GETVERSION_RESULT", 20)
    ∷ ("SDC_VERSIONERROR", 30)
    ∷ ("DCS_PING_SERVER", 40)
    ∷ ("SDC_PING_SERVER_RESULT", 50)
    ∷ ("DS_REGISTER_DEVICE", 60)
    ∷ ("DS_REGISTER_DEVICE_B", 65)
    ∷ ("DS_REGISTER_DEVICE_C", 67)
    ∷ ("DS_REGISTER_DEVICE_D", 68)
    ∷ ("DS_REGISTER_DEVICE_E", 69)
    ∷ ("SD_REGISTER_DEVICE_RESULT", 70)
    ∷ ("SD_REGISTER_DEVICE_RESULT_B", 71)
    ∷ ("DS_REGISTER_DEVICE_F", 75)
    ∷ ("DS_REGISTER_DEVICE_G", 76)
    ∷ ("CS_REGISTER_CLIENT", 80)
    ∷ ("CS_REGISTER_CLIENT_B", 85)
    ∷ ("CS_REGISTER_CLIENT_C", 86)
    ∷ ("CS_REGISTER_CLIENT_D", 87)
    ∷ ("SC_REGISTER_CLIENT_RESULT", 90)
    ∷ ("SC_REGISTER_CLIENT_RESULT_B", 92)
    ∷ ("SC_REGISTER_CLIENT_RESULT_C", 94)
    ∷ ("SC_REGISTER_CLIENT_RESULT_D", 96)
    ∷ ("DS_DEVICE_CHANNEL_VALUE_CHANGED", 100)
    ∷ ("DS_DEVICE_CHANNEL_VALUE_CHANGED_B", 102)
    ∷ ("DS_DEVICE_CHANNEL_VALUE_CHANGED_C", 103)
    ∷ ("DS_DEVICE_CHANNEL_EXTENDEDVALUE_CHANGED", 105)
    ∷ ("SD_CHANNEL_SET_VALUE", 110)
    ∷ ("SD_CHANNELGROUP_SET_VALUE", 115)
    ∷ ("DS_CHANNEL_SET_VALUE_RESULT", 120)
    ∷ ("SC_LOCATION_UPDATE", 130)
    ∷ ("SC_LOCATIONPACK_UPDATE", 140)
    ∷ ("SC_CHANNELPACK_UPDATE", 160)
    ∷ ("SC_CHANNEL_VALUE_UPDATE", 170)
    ∷ ("SC_CHANNEL_VALUE_UPDATE_B", 171)
    ∷ ("CS_GET_NEXT", 180)
    ∷ ("SC_EVENT", 190)
    ∷ ("CS_CHANNEL_SET_VALUE", 200)
    ∷ ("CS_CHANNEL_SET_VALUE_B", 205)
    ∷ ("DCS_SET_ACTIVITY_TIMEOUT", 210)
    ∷ ("SDC_SET_ACTIVITY_TIMEOUT_RESULT", 220)
    ∷ ("DS_GET_FIRMWARE_UPDATE_URL", 300)
    ∷ ("SD_GET_FIRMWARE_UPDATE_URL_RESULT", 310)
    ∷ ("DCS_GET_REGISTRATION_ENABLED", 320)
    ∷ ("SDC_GET_REGISTRATION_ENABLED_RESULT", 330)
    ∷ ("CS_OAUTH_TOKEN_REQUEST", 340)
    ∷ ("SC_OAUTH_TOKEN_REQUEST_RESULT", 350)
    ∷ ("SC_CHANNELPACK_UPDATE_B", 360)
    ∷ ("SC_CHANNELPACK_UPDATE_C", 361)
    ∷ ("SC_CHANNELPACK_UPDATE_D", 362)
    ∷ ("SC_CHANNELPACK_UPDATE_E", 363)
    ∷ ("SC_CHANNELGROUP_PACK_UPDATE", 380)
    ∷ ("SC_CHANNELGROUP_PACK_UPDATE_B", 381)
    ∷ ("SC_CHANNELGROUP_RELATION_PACK_UPDATE", 390)
    ∷ ("SC_CHANNEL_RELATION_PACK_UPDATE", 395)
    ∷ ("SC_CHANNELVALUE_PACK_UPDATE", 400)
    ∷ ("SC_CHANNELVALUE_PACK_UPDATE_B", 401)
    ∷ ("SC_CHANNELEXTENDEDVALUE_PACK_UPDATE", 405)
    ∷ ("CS_SET_VALUE", 410)
    ∷ ("CS_SUPERUSER_AUTHORIZATION_REQUEST", 420)
    ∷ ("CS_GET_SUPERUSER_AUTHORIZATION_RESULT", 425)
    ∷ ("SC_SUPERUSER_AUTHORIZATION_RESULT", 430)
    ∷ ("CS_DEVICE_CALCFG_REQUEST", 440)
    ∷ ("CS_DEVICE_CALCFG_REQUEST_B", 445)
    ∷ ("SC_DEVICE_CALCFG_RESULT", 450)
    ∷ ("SD_DEVICE_CALCFG_REQUEST", 460)
    ∷ ("DS_DEVICE_CALCFG_RESULT", 470)
    ∷ ("DCS_GET_USER_LOCALTIME", 480)
    ∷ ("DCS_GET_USER_LOCALTIME_RESULT", 490)
    ∷ ("CSD_GET_CHANNEL_STATE", 500)
    ∷ ("DSC_CHANNEL_STATE_RESULT", 510)
    ∷ ("CS_GET_CHANNEL_BASIC_CFG", 520)
    ∷ ("SC_CHANNEL_BASIC_CFG_RESULT", 530)
    ∷ ("CS_SET_CHANNEL_FUNCTION", 540)
    ∷ ("SC_SET_CHANNEL_FUNCTION_RESULT", 550)
    ∷ ("CS_CLIENTS_RECONNECT_REQUEST", 560)
    ∷ ("SC_CLIENTS_RECONNECT_REQUEST_RESULT", 570)
    ∷ ("CS_SET_REGISTRATION_ENABLED", 580)
    ∷ ("SC_SET_REGISTRATION_ENABLED_RESULT", 590)
    ∷ ("CS_DEVICE_RECONNECT_REQUEST", 600)
    ∷ ("SC_DEVICE_RECONNECT_REQUEST_RESULT", 610)
    ∷ ("DS_GET_CHANNEL_FUNCTIONS", 620)
    ∷ ("SD_GET_CHANNEL_FUNCTIONS_RESULT", 630)
    ∷ ("CS_SET_CHANNEL_CAPTION", 640)
    ∷ ("SC_SET_CHANNEL_CAPTION_RESULT", 650)
    ∷ ("CS_SET_CHANNEL_GROUP_CAPTION", 642)
    ∷ ("SC_SET_CHANNEL_GROUP_CAPTION_RESULT", 652)
    ∷ ("CS_SET_LOCATION_CAPTION", 645)
    ∷ ("SC_SET_LOCATION_CAPTION_RESULT", 655)
    ∷ ("DS_GET_CHANNEL_CONFIG", 680)
    ∷ ("SD_GET_CHANNEL_CONFIG_RESULT", 690)
    ∷ ("DS_SET_CHANNEL_CONFIG", 681)
    ∷ ("SD_SET_CHANNEL_CONFIG_RESULT", 691)
    ∷ ("SD_SET_CHANNEL_CONFIG", 682)
    ∷ ("DS_SET_CHANNEL_CONFIG_RESULT", 692)
    ∷ ("SD_CHANNEL_CONFIG_FINISHED", 683)
    ∷ ("DS_SET_DEVICE_CONFIG", 684)
    ∷ ("SD_SET_DEVICE_CONFIG_RESULT", 694)
    ∷ ("SD_SET_DEVICE_CONFIG", 685)
    ∷ ("DS_SET_DEVICE_CONFIG_RESULT", 695)
    ∷ ("DS_ACTIONTRIGGER", 700)
    ∷ ("CS_TIMER_ARM", 800)
    ∷ ("SC_SCENE_PACK_UPDATE", 900)
    ∷ ("SC_SCENE_STATE_PACK_UPDATE", 910)
    ∷ ("CS_EXECUTE_ACTION", 1000)
    ∷ ("CS_EXECUTE_ACTION_WITH_AUTH", 1010)
    ∷ ("SC_ACTION_EXECUTION_RESULT", 1020)
    ∷ ("CS_GET_CHANNEL_VALUE_WITH_AUTH", 1030)
    ∷ ("SC_GET_CHANNEL_VALUE_RESULT", 1040)
    ∷ ("CS_SET_SCENE_CAPTION", 1045)
    ∷ ("SC_SET_SCENE_CAPTION_RESULT", 1055)
    ∷ ("DS_REGISTER_PUSH_NOTIFICATION", 1100)
    ∷ ("DS_SEND_PUSH_NOTIFICATION", 1110)
    ∷ ("CS_REGISTER_PN_CLIENT_TOKEN", 1120)
    ∷ ("SC_REGISTER_PN_CLIENT_TOKEN_RESULT", 1121)
    ∷ ("CS_GET_CHANNEL_CONFIG", 1200)
    ∷ ("SC_CHANNEL_CONFIG_UPDATE_OR_RESULT", 1210)
    ∷ ("CS_SET_CHANNEL_CONFIG", 1220)
    ∷ ("CS_GET_DEVICE_CONFIG", 1240)
    ∷ ("SC_DEVICE_CONFIG_UPDATE_OR_RESULT", 1250)
    ∷ ("DS_SET_SUBDEVICE_DETAILS", 1260)
    ∷ []
