-- ===== src/Util/Modes.antt =====
-- The modes of the server: which of them start something.
use pulsar_beam.Prelude.{String, true, false, ◌||◌, ◌≡◌, ◌≢◌, sym, ◌∙◌, refl, ap, arith, eq_iff}
use pulsar_beam.Strings.{trim_space}
use pulsar_beam.Util.{is_broker_required, is_http_router_required, is_broker, is_valid_mode}

-- A mode without spaces around it is valid exactly if it starts the broker, the HTTP server or both.
pub is_valid_mode-eq :
    (mode : String)
    → trim_space mode ≡ mode
    → is_valid_mode mode ≡ (is_broker_required mode || is_http_router_required mode)
unfolding is_valid_mode is_broker_required is_http_router_required trim_space
is_valid_mode-eq mode h = rw h (
    ground (
      arith,
      eq_iff "broker" mode,
      eq_iff mode "broker",
      eq_iff "hybrid" mode,
      eq_iff mode "hybrid",
    ))

-- A padded "broker" passes the check of the mode and starts nothing: no broker, no server, and not
-- the loop that keeps the process alive.
pub padded_broker :
    (mode : String)
    → trim_space mode ≡ "broker"
    → mode ≢ "broker"
    → (is_valid_mode mode ≡ true)
      × (is_broker_required mode ≡ false)
      × (is_http_router_required mode ≡ false)
      × (is_broker mode ≡ false)
unfolding is_valid_mode is_broker_required is_http_router_required is_broker trim_space
padded_broker mode h b =
    let y : mode ≢ "hybrid" = λ e. cc ((eq_iff "broker" "hybrid").1 (sym h ∙ ap trim_space e)) in
    rw h (
      refl,
      ground (arith, eq_iff mode "broker", eq_iff mode "hybrid"),
      refl,
      ground (arith, eq_iff mode "broker"),
    )
