-- ===== src/Broker/Replies.antt =====
-- toPulsar of src/broker/webhook.go: what a webhook replies is sent to a topic.
use pulsar_beam.Prelude.{
  String, true, false, List, Result, ok, err, ◌≡◌, ◌≢◌, ◌⊎◌, inl, inr, refl, Any,
}
use pulsar_beam.Strings.{trim_space}
use pulsar_beam.Util.{Configuration, Values, Receiver, receiver_header, header_get, is_restricted}
use pulsar_beam.Util.Clusters.{receiver_header-IsAllowed}
use pulsar_beam.Driver.{Cluster, Driver}
use pulsar_beam.Driver.Sending.{send_async}

module _ (cluster : Cluster) where
  abbrev forwarded : Result Receiver → Result String → Driver → Driver
  unfolding send_async
  forwarded (err e) body d = d
  forwarded (ok r) (err e) d = d
  forwarded (ok r) (ok b) d = (send_async cluster r.pulsar_url r.token r.topic_fn false d).1

  -- The headers and the body of the reply; the errors are dropped.
  unfoldable pub to_pulsar : Configuration → List String → Values → Result String → Driver → Driver
  unfolding forwarded receiver_header
  to_pulsar cfg allowed h body d = forwarded (receiver_header cfg allowed h) body d

  -- A place that the configuration lets a message be sent to.
  abbrev Permitted : List String → Values → Receiver → Type 0
  Permitted allowed h r =
      ((is_restricted allowed ≡ true) × Any (λ v. trim_space v ≡ trim_space r.pulsar_url) allowed)
      ⊎ ((is_restricted allowed ≡ false)
          × (r.pulsar_url ≡ header_get h "PulsarUrl")
          × (r.pulsar_url ≢ ""))

  forwarded_lem :
      (cfg : Configuration) (allowed : List String) (h : Values) (k : Result Receiver)
      (body : Result String) (d : Driver)
      → receiver_header cfg allowed h ≡ k
      → (forwarded k body d ≡ d)
        ⊎ ((r : Receiver) × (forwarded k body d
              ≡ (send_async cluster r.pulsar_url r.token r.topic_fn false d).1)
            × Permitted allowed h r)
  unfolding forwarded
  forwarded_lem cfg allowed h (err e) body d l = inl refl
  forwarded_lem cfg allowed h (ok r) (err e) d l = inl refl
  forwarded_lem cfg allowed h (ok r) (ok b) d l =
      inr (r, refl, receiver_header-IsAllowed cfg allowed h r l)

  -- The reply of a webhook is sent nowhere, or to one topic of a cluster of the list, up to spaces,
  -- where the list restricts the clusters, and of the one that the reply names, where it does not.
  to_pulsar-Permitted :
      (cfg : Configuration) (allowed : List String) (h : Values) (body : Result String) (d : Driver)
      → (to_pulsar cfg allowed h body d ≡ d)
        ⊎ ((r : Receiver) × (to_pulsar cfg allowed h body d
              ≡ (send_async cluster r.pulsar_url r.token r.topic_fn false d).1)
            × Permitted allowed h r)
  unfolding to_pulsar
  to_pulsar-Permitted cfg allowed h body d =
      forwarded_lem cfg allowed h (receiver_header cfg allowed h) body d refl
