-- ===== src/Proto/Enums/Kinds.antt =====
-- The kinds, functions and flags of channels and devices, of suplalite/proto.py.
use suplalite.Common.{ℕ, String, List, [], ◌∷◌}

abbrev pub channel_type : List (String × ℕ)
channel_type =
    ("BINARYSENSOR", 1000)
    ∷ ("SENSORNC", 1010)
    ∷ ("DISTANCESENSOR", 1020)
    ∷ ("CALLBUTTON", 1500)
    ∷ ("RELAYHFD4", 2000)
    ∷ ("RELAYG5LA1A", 2010)
    ∷ ("_2XRELAYG5LA1A", 2020)
    ∷ ("RELAY", 2900)
    ∷ ("THERMOMETERDS18B20", 3000)
    ∷ ("DHT11", 3010)
    ∷ ("DHT22", 3020)
    ∷ ("DHT21", 3022)
    ∷ ("AM2302", 3030)
    ∷ ("AM2301", 3032)
    ∷ ("THERMOMETER", 3034)
    ∷ ("HUMIDITYSENSOR", 3036)
    ∷ ("HUMIDITYANDTEMPSENSOR", 3038)
    ∷ ("WINDSENSOR", 3042)
    ∷ ("PRESSURESENSOR", 3044)
    ∷ ("RAINSENSOR", 3048)
    ∷ ("WEIGHTSENSOR", 3050)
    ∷ ("WEATHER_STATION", 3100)
    ∷ ("DIMMER", 4000)
    ∷ ("RGBLEDCONTROLLER", 4010)
    ∷ ("DIMMERANDRGBLED", 4020)
    ∷ ("ELECTRICITY_METER", 5000)
    ∷ ("IMPULSE_COUNTER", 5010)
    ∷ ("THERMOSTAT", 6000)
    ∷ ("THERMOSTAT_HEATPOL_HOMEPLUS", 6010)
    ∷ ("HVAC", 6100)
    ∷ ("VALVE_OPENCLOSE", 7000)
    ∷ ("VALVE_PERCENTAGE", 7010)
    ∷ ("BRIDGE", 8000)
    ∷ ("GENERAL_PURPOSE_MEASUREMENT", 9000)
    ∷ ("GENERAL_PURPOSE_METER", 9010)
    ∷ ("ENGINE", 10000)
    ∷ ("ACTIONTRIGGER", 11000)
    ∷ ("DIGIGLASS", 12000)
    ∷ []

abbrev pub channel_func : List (String × ℕ)
channel_func =
    ("NONE", 0)
    ∷ ("CONTROLLINGTHEGATEWAYLOCK", 10)
    ∷ ("CONTROLLINGTHEGATE", 20)
    ∷ ("CONTROLLINGTHEGARAGEDOOR", 30)
    ∷ ("THERMOMETER", 40)
    ∷ ("HUMIDITY", 42)
    ∷ ("HUMIDITYANDTEMPERATURE", 45)
    ∷ ("OPENINGSENSOR_GATEWAY", 50)
    ∷ ("OPENINGSENSOR_GATE", 60)
    ∷ ("OPENINGSENSOR_GARAGEDOOR", 70)
    ∷ ("NOLIQUIDSENSOR", 80)
    ∷ ("CONTROLLINGTHEDOORLOCK", 90)
    ∷ ("OPENINGSENSOR_DOOR", 100)
    ∷ ("CONTROLLINGTHEROLLERSHUTTER", 110)
    ∷ ("CONTROLLINGTHEROOFWINDOW", 115)
    ∷ ("OPENINGSENSOR_ROLLERSHUTTER", 120)
    ∷ ("OPENINGSENSOR_ROOFWINDOW", 125)
    ∷ ("POWERSWITCH", 130)
    ∷ ("LIGHTSWITCH", 140)
    ∷ ("RING", 150)
    ∷ ("ALARM", 160)
    ∷ ("NOTIFICATION", 170)
    ∷ ("DIMMER", 180)
    ∷ ("RGBLIGHTING", 190)
    ∷ ("DIMMERANDRGBLIGHTING", 200)
    ∷ ("DEPTHSENSOR", 210)
    ∷ ("DISTANCESENSOR", 220)
    ∷ ("OPENINGSENSOR_WINDOW", 230)
    ∷ ("HOTELCARDSENSOR", 235)
    ∷ ("ALARMARMAMENTSENSOR", 236)
    ∷ ("MAILSENSOR", 240)
    ∷ ("WINDSENSOR", 250)
    ∷ ("PRESSURESENSOR", 260)
    ∷ ("RAINSENSOR", 270)
    ∷ ("WEIGHTSENSOR", 280)
    ∷ ("WEATHER_STATION", 290)
    ∷ ("STAIRCASETIMER", 300)
    ∷ ("ELECTRICITY_METER", 310)
    ∷ ("IC_ELECTRICITY_METER", 315)
    ∷ ("IC_GAS_METER", 320)
    ∷ ("IC_WATER_METER", 330)
    ∷ ("IC_HEAT_METER", 340)
    ∷ ("IC_EVENTS", 350)
    ∷ ("IC_SECONDS", 360)
    ∷ ("THERMOSTAT_HEATPOL_HOMEPLUS", 410)
    ∷ ("HVAC_THERMOSTAT", 420)
    ∷ ("HVAC_THERMOSTAT_HEAT_COOL", 422)
    ∷ ("HVAC_DRYER", 423)
    ∷ ("HVAC_FAN", 424)
    ∷ ("HVAC_THERMOSTAT_DIFFERENTIAL", 425)
    ∷ ("HVAC_DOMESTIC_HOT_WATER", 426)
    ∷ ("VALVE_OPENCLOSE", 500)
    ∷ ("VALVE_PERCENTAGE", 510)
    ∷ ("GENERAL_PURPOSE_MEASUREMENT", 520)
    ∷ ("GENERAL_PURPOSE_METER", 530)
    ∷ ("CONTROLLINGTHEENGINESPEED", 600)
    ∷ ("ACTIONTRIGGER", 700)
    ∷ ("DIGIGLASS_HORIZONTAL", 800)
    ∷ ("DIGIGLASS_VERTICAL", 810)
    ∷ ("CONTROLLINGTHEFACADEBLIND", 900)
    ∷ ("TERRACE_AWNING", 910)
    ∷ ("PROJECTOR_SCREEN", 920)
    ∷ ("CURTAIN", 930)
    ∷ ("VERTICAL_BLIND", 940)
    ∷ ("ROLLER_GARAGE_DOOR", 950)
    ∷ ("PUMPSWITCH", 960)
    ∷ ("HEATORCOLDSOURCESWITCH", 970)
    ∷ []

abbrev pub action_cap : List (String × ℕ)
action_cap =
    ("NONE", 0)
    ∷ ("TURN_ON", 1)
    ∷ ("TURN_OFF", 2)
    ∷ ("TOGGLE_x1", 4)
    ∷ ("TOGGLE_x2", 8)
    ∷ ("TOGGLE_x3", 16)
    ∷ ("TOGGLE_x4", 32)
    ∷ ("TOGGLE_x5", 64)
    ∷ ("ROTATE_RIGHT", 128)
    ∷ ("ROTATE_LEFT", 256)
    ∷ ("HOLD", 1024)
    ∷ ("SHORT_PRESS_x1", 2048)
    ∷ ("SHORT_PRESS_x2", 4096)
    ∷ ("SHORT_PRESS_x3", 8192)
    ∷ ("SHORT_PRESS_x4", 16384)
    ∷ ("SHORT_PRESS_x5", 32768)
    ∷ []

abbrev pub device_flag : List (String × ℕ)
device_flag =
    ("NONE", 0)
    ∷ ("CALCFG_ENTER_CFG_MODE", 0x0010)
    ∷ ("SLEEP_MODE_ENABLED", 0x0020)
    ∷ ("CALCFG_SET_TIME", 0x0040)
    ∷ ("DEVICE_CONFIG_SUPPORTED", 0x0080)
    ∷ ("DEVICE_LOCKED", 0x0100)
    ∷ ("CALCFG_SUBDEVICE_PAIRING", 0x0200)
    ∷ ("CALCFG_IDENTIFY_DEVICE", 0x0400)
    ∷ ("CALCFG_RESTART_DEVICE", 0x0800)
    ∷ ("ALWAYS_ALLOW_CHANNEL_DELETION", 0x1000)
    ∷ ("BLOCK_ADDING_CHANNELS_AFTER_DELETION", 0x2000)
    ∷ []

abbrev pub channel_flag : List (String × ℕ)
channel_flag =
    ("NONE", 0)
    ∷ ("ZWAVE_BRIDGE", 0x0001)
    ∷ ("IR_BRIDGE", 0x0002)
    ∷ ("RF_BRIDGE", 0x0004)
    ∷ ("CHART_TYPE_BAR", 0x0010)
    ∷ ("CHART_DS_TYPE_DIFFERENTAL", 0x0020)
    ∷ ("CHART_INTERPOLATE_MEASUREMENTS", 0x0040)
    ∷ ("RS_SBS_AND_STOP_ACTIONS", 0x0080)
    ∷ ("RGBW_COMMANDS_SUPPORTED", 0x0100)
    ∷ ("RS_AUTO_CALIBRATION", 0x1000)
    ∷ ("CALCFG_RESET_COUNTERS", 0x2000)
    ∷ ("CALCFG_RECALIBRATE", 0x4000)
    ∷ ("CALCFG_IDENTIFY_SUBDEVICE", 0x8000)
    ∷ ("CHANNELSTATE", 0x00010000)
    ∷ ("PHASE1_UNSUPPORTED", 0x00020000)
    ∷ ("PHASE2_UNSUPPORTED", 0x00040000)
    ∷ ("PHASE3_UNSUPPORTED", 0x00080000)
    ∷ ("TIME_SETTING_NOT_AVAILABLE", 0x00100000)
    ∷ ("RSA_ENCRYPTED_PIN_REQUIRED", 0x00200000)
    ∷ ("OFFLINE_DURING_REGISTRATION", 0x00400000)
    ∷ ("ZIGBEE_BRIDGE", 0x00800000)
    ∷ ("COUNTDOWN_TIMER_SUPPORTED", 0x01000000)
    ∷ ("LIGHTSOURCELIFESPAN_SETTABLE", 0x02000000)
    ∷ ("POSSIBLE_SLEEP_MODE_deprecated", 0x04000000)
    ∷ ("RUNTIME_CHANNEL_CONFIG_UPDATE", 0x08000000)
    ∷ ("WEEKLY_SCHEDULE", 0x10000000)
    ∷ ("HAS_PARENT", 0x20000000)
    ∷ ("CALCFG_RESTART_SUBDEVICE", 0x40000000)
    ∷ ("BATTERY_COVER_AVAILABLE", 0x80000000)
    ∷ []
