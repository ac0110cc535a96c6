-- ===== src/Model/Topic/Keys.antt =====
-- Which topics have a key, and that the key tells the topics of one cluster apart.
use pulsar_beam.Prelude.{String, ◌≡◌, ◌≢◌, ◌↔◌, sym, ◌∙◌, ok, arith, eq_iff}
use pulsar_beam.Platform.{Platform}
use pulsar_beam.Strings.{◌<>◌, trim_space}
use pulsar_beam.Strings.Prefixes.{append-cancel_right}
use pulsar_beam.Model.Regex.{Matches}
use pulsar_beam.Model.Regex.Laws.{match_string-eq-true_iff}
use pulsar_beam.Model.Topic.{gen_key, get_key_from_names, pulsar_url_regex}

module _ (platform : Platform) where
  -- A topic has a key exactly if its name and its URL are not blank and the trimmed URL has the form
  -- of a Pulsar URL; the key is then the digest of the trimmed name followed by the trimmed URL.
  pub get_key_from_names-eq-ok_iff :
      (name url key : String)
      → (get_key_from_names platform name url ≡ ok key) ↔ (
          (trim_space url ≢ "")
          × (trim_space name ≢ "")
          × Matches pulsar_url_regex (trim_space url)
          × (platform.sha1_hex (trim_space name <> trim_space url) ≡ key))
  unfolding get_key_from_names gen_key
  get_key_from_names-eq-ok_iff name url key =
      let (to, from) = match_string-eq-true_iff pulsar_url_regex (trim_space url) in
      (
        λ e. (
          ground (arith, eq_iff (trim_space url) ""),
          ground (arith, eq_iff (trim_space name) ""),
          to (ground arith),
          ground arith,
        ),
        λ (u, n, m, k).
            ground (arith, eq_iff (trim_space url) "", eq_iff (trim_space name) "", from m),
      )

  -- If the digest tells texts apart, two topics of one cluster share a key only if their trimmed
  -- names are equal.
  pub get_key_from_names-injective :
      (name name' url key : String)
      → ((s t : String) → platform.sha1_hex s ≡ platform.sha1_hex t → s ≡ t)
      → get_key_from_names platform name url ≡ ok key
      → get_key_from_names platform name' url ≡ ok key
      → trim_space name ≡ trim_space name'
  get_key_from_names-injective name name' url key injective e e' =
      let (_, _, _, k) = (get_key_from_names-eq-ok_iff name url key).0 e in
      let (_, _, _, k') = (get_key_from_names-eq-ok_iff name' url key).0 e' in
      append-cancel_right (trim_space name) (trim_space name') (trim_space url)
        (injective _ _ (k ∙ sym k'))
