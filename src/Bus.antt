-- ===== src/Bus.antt =====
-- pkg/events/nats.go: the options of a connection, the stream, and the delivery of threat scores.
-- NATS itself is a parameter.
pub mod Connector
pub mod Delivery
use sentinel5g.Prelude.{
  ℕ, ◌*◌, Bool, true, false, List, [], ◌∷◌, ◌++◌, Option, none, some, Text, text_discrete, ite,
  if◌then◌else◌,
}
use sentinel5g.Events.{NormalizedEvent}

pub record Config : Type 0 where
  pub url : Text
  pub stream_name : Text
  pub events_subject : Text
  pub threats_subject : Text
  pub connect_timeout : ℕ
  pub credentials_file : Text
  pub username : Text
  pub password : Text
  pub tls_ca_file : Text
  pub tls_cert_file : Text
  pub tls_key_file : Text

-- The options that Connect passes to NATS.
pub data ConnectOption : Type 0 where
  timeout : ℕ → ConnectOption
  retry_on_failed_connect unlimited_reconnects : ConnectOption
  user_credentials : Text → ConnectOption
  user_info client_cert : Text → Text → ConnectOption
  root_cas : Text → ConnectOption

-- The options that say who connects: a credentials file goes before a user's name.
unfoldable pub login_options : Config → List ConnectOption
login_options cfg =
    ite (text_discrete cfg.credentials_file [])
      (ite (text_discrete cfg.username []) [] (user_info cfg.username cfg.password ∷ []))
      (user_credentials cfg.credentials_file ∷ [])

unfoldable pub tls_options : Config → List ConnectOption
tls_options cfg =
    ite (text_discrete cfg.tls_cert_file []) []
      (client_cert cfg.tls_cert_file cfg.tls_key_file ∷ [])
    ++ ite (text_discrete cfg.tls_ca_file []) [] (root_cas cfg.tls_ca_file ∷ [])

unfoldable pub connect_options : Config → List ConnectOption
connect_options cfg =
    timeout cfg.connect_timeout
    ∷ retry_on_failed_connect
    ∷ unlimited_reconnects
    ∷ (login_options cfg ++ tls_options cfg)

pub record StreamConfig : Type 0 where
  pub name : Text
  pub subjects : List Text
  pub max_age : ℕ

-- JetStream, over its state.
pub record JetStream (J : Type 0) : Type 0 where
  pub connects : Text → List ConnectOption → J → Bool
  pub opens : J → Bool
  pub has_stream : Text → J → Bool
  pub add_stream : StreamConfig → J → J × Bool
  pub publish : Text → Text → J → J × Bool

abbrev day : ℕ
day = 86400000000000

module _ {J : Type 0} (js : JetStream J) where
  open js use {connects, opens, has_stream, add_stream, publish}

  -- ensureStream: a stream that is there is left as it is.
  unfoldable pub ensure_stream : Config → J → J × Bool
  ensure_stream cfg j =
      if has_stream cfg.stream_name j
      then (j, true)
      else add_stream
          (record {
            name = cfg.stream_name;
            subjects = cfg.events_subject ∷ cfg.threats_subject ∷ [];
            max_age = day;
          })
          j

  -- Connect, and whether it gives a bus.
  unfoldable pub connect : Config → J → J × Bool
  connect cfg j =
      if connects cfg.url (connect_options cfg) j
      then (if opens j then ensure_stream cfg j else (j, false))
      else (j, false)

  -- PublishNormalizedEventBatch, with the JSON of a batch: an empty batch publishes nothing.
  unfoldable pub publish_batch :
      (List NormalizedEvent → Text) → Text → List NormalizedEvent → J → J × Bool
  publish_batch marshal subject [] j = (j, true)
  publish_batch marshal subject (e ∷ es) j = publish subject (marshal (e ∷ es)) j
