-- ===== src/Proto/Messages.antt =====
-- Every message class of suplalite/proto.py.
use suplalite.Common.{List, [], ◌∷◌}
use suplalite.Encoding.Schema.{Class}
use suplalite.Proto.Devices.{
  time_val, action_trigger_properties, tds_device_channel_c, tds_register_device_e,
}
use suplalite.Proto.Clients.{
  tsd_register_device_result, tdcs_ping_server, tsdc_ping_server_result, tdcs_set_activity_timeout,
  tsdc_set_activity_timeout_result, tsd_channel_new_value, tds_channel_new_value_result,
  tds_device_channel_value, tds_device_channel_value_c, tcs_register_client_d,
  tsc_register_client_result_d, tcs_client_authorization_details, tcs_pn_client_token,
  tcs_register_pn_client_token, tsc_register_pn_client_token_result,
  tcs_super_user_authorization_request, tsc_super_user_authorization_result, tsc_location,
  tsc_location_pack,
}
use suplalite.Proto.Channels.{
  channel_value, channel_value_b, tsc_channel, tsc_channel_e, tsc_channel_pack_e,
  tsc_channel_relation, tsc_channel_relation_pack, tsc_scene, tsc_scene_pack, tsc_channel_value,
  tsc_channel_value_b, tsc_channel_value_pack_b,
}
use suplalite.Proto.Actions.{
  tcs_action, taction_rgbw_parameters, tsc_action_execution_result, tcs_new_value,
  tsdc_registration_enabled, tcs_channel_state_request, tsd_channel_state_request,
  tds_channel_state,
}
use suplalite.Proto.States.{tsc_channel_state, tsc_oauth_token, tsc_oauth_token_request_result}
use suplalite.Proto.Configs.{
  tcs_device_cal_cfg_request_b, tsc_device_cal_cfg_result, tsd_device_cal_cfg_request,
  tds_device_cal_cfg_result, tcs_get_channel_config_request, tscs_channel_config,
  tsc_channel_config_update_or_result, tchannel_config_temperature_and_humidity,
  tchannel_config_general_purpose_measurement,
}
use suplalite.Proto.Values.{
  trelay_channel_value, ttemperature_channel_value, ttemperature_and_humidity_channel_value,
  tgeneral_purpose_measurement_channel_value, tdimmer_channel_value, trgbdimmer_channel_value,
}
use suplalite.Proto.Packets.{data_packet}

abbrev pub messages : List Class
messages =
    time_val ∷ action_trigger_properties ∷ tds_device_channel_c ∷ tds_register_device_e
    ∷ tsd_register_device_result ∷ tdcs_ping_server ∷ tsdc_ping_server_result
    ∷ tdcs_set_activity_timeout ∷ tsdc_set_activity_timeout_result ∷ tsd_channel_new_value
    ∷ tds_channel_new_value_result ∷ tds_device_channel_value ∷ tds_device_channel_value_c
    ∷ tcs_register_client_d ∷ tsc_register_client_result_d ∷ tcs_client_authorization_details
    ∷ tcs_pn_client_token ∷ tcs_register_pn_client_token ∷ tsc_register_pn_client_token_result
    ∷ tcs_super_user_authorization_request ∷ tsc_super_user_authorization_result ∷ tsc_location
    ∷ tsc_location_pack ∷ channel_value ∷ channel_value_b ∷ tsc_channel ∷ tsc_channel_e
    ∷ tsc_channel_pack_e ∷ tsc_channel_relation ∷ tsc_channel_relation_pack ∷ tsc_scene
    ∷ tsc_scene_pack ∷ tsc_channel_value ∷ tsc_channel_value_b ∷ tsc_channel_value_pack_b
    ∷ tcs_action ∷ taction_rgbw_parameters ∷ tsc_action_execution_result ∷ tcs_new_value
    ∷ tsdc_registration_enabled ∷ tcs_channel_state_request ∷ tsd_channel_state_request
    ∷ tds_channel_state ∷ tsc_channel_state ∷ tsc_oauth_token ∷ tsc_oauth_token_request_result
    ∷ tcs_device_cal_cfg_request_b ∷ tsc_device_cal_cfg_result ∷ tsd_device_cal_cfg_request
    ∷ tds_device_cal_cfg_result ∷ tcs_get_channel_config_request ∷ tscs_channel_config
    ∷ tsc_channel_config_update_or_result ∷ tchannel_config_temperature_and_humidity
    ∷ tchannel_config_general_purpose_measurement ∷ trelay_channel_value
    ∷ ttemperature_channel_value ∷ ttemperature_and_humidity_channel_value
    ∷ tgeneral_purpose_measurement_channel_value ∷ tdimmer_channel_value ∷ trgbdimmer_channel_value
    ∷ data_packet ∷ []
