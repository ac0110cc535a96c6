-- ===== src/Tests/Openers.antt =====
-- Each name opens the definitions that one group of tests computes with.
use pulsar_beam.Prelude.Maps.{lookup, insert, delete}
use pulsar_beam.Strings.{trim_space, split, join}
use pulsar_beam.Model.Regex.{match_string}
use pulsar_beam.Model.Topic.{
  gen_key, get_key_from_names, pulsar_url_regex, validate_webhook_config, validate_from,
  validate_webhook, is_url, note_exclusive, get_subscription_type, get_initial_position,
  validate_topic_config,
}
use pulsar_beam.Db.{load_topics, append_topics, get_key}
use pulsar_beam.Db.InMemory
use pulsar_beam.Route.Auth.{extract_eval_tenant, verify_subject_based_on_topic}
use pulsar_beam.Route.Topics.{get_topic_key, may_manage}

unfoldable pub keys : Unit {0}
unfolding get_key get_key_from_names trim_space gen_key match_string pulsar_url_regex
keys = tt

unfoldable pub validation : Unit {0}
unfolding keys validate_topic_config validate_webhook_config validate_from validate_webhook is_url
    note_exclusive get_subscription_type get_initial_position lookup insert
validation = tt

unfoldable pub memory : Unit {0}
unfolding keys InMemory.create InMemory.update InMemory.get_by_key InMemory.delete_by_key
    InMemory.load load_topics append_topics lookup insert delete
memory = tt

unfoldable pub access : Unit {0}
unfolding get_topic_key may_manage extract_eval_tenant verify_subject_based_on_topic split join
    lookup
access = tt
