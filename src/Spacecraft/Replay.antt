-- ===== src/Spacecraft/Replay.antt =====
-- A relay can neither forge nor replay a command (spacecraft/spacecraft.go).
use overpass.Prelude.{
  ◌≡◌, ◌⊎◌, refl, sym, ap, ◌∙◌, subst, Bool, true, false, Option, some, List, [], ◌∷◌, String,
  arith, inl, inr, Bool-cases, eq_refl,
}
use overpass.Prelude.Int.{ℤ, eqb_ℤ, eqb_ℤ_iff, ◌<ℤ◌}
use overpass.Prelude.Text.{same}
use overpass.Errs.{Error, Result, named, ok, err, command_rejected_norad, command_rejected_counter}
use overpass.Jose.{Library}
use overpass.Schema.{Command, Ack, ack_accepted, ack_rejected}
use overpass.Schema.Decode.{Codec, verify_object, peek_object, command_profile}
use overpass.Store.{Store, row, advances}
use overpass.Store.Counters.{
  advance_cases, AtMost, AtMost-refl, AtMost-trans, advances-AtMost, above_stored,
}
use overpass.Spacecraft.{
  State, Body, apply, Spacecraft, counter_name, accept, after_advance, verified, unverified, uplink,
  run, rejected,
}

accepted_not_rejected : (r : String) → r ≡ ack_accepted → r ≡ ack_rejected → ⊥
accepted_not_rejected r p q =
    let e : true ≡ false = sym (eq_refl ack_accepted) ∙ ap (same ack_accepted) (sym p ∙ q) in
    ground arith

module _ (lib : Library) (codec : Codec Command) (read_body : String → Option Body)
    (telemetry : State → String) where
  open lib use {Key}

  -- The stored counter of a spacecraft.
  abbrev pub stored : Spacecraft Key → Option ℤ
  stored s = row (counter_name s.norad_id) s.store.counters

  -- What an accepted command has shown and changed.
  pub record Accepts (s : Spacecraft Key) (token : String) (ack : Ack) (s' : Spacecraft Key)
      : Type 0 where
    pub command : Command
    pub signed : verify_object lib codec command_profile token s.ops_keys ≡ ok command
    pub own : command.norad_id ≡ s.norad_id
    pub acked : ack.counter ≡ command.counter
    pub above : advances (stored s) command.counter ≡ true
    pub recorded : stored s' ≡ some command.counter
    pub applied :
        s'.state ≡ apply (read_body command.body) (record (s.state) { last_cmd = command.counter })
    pub same_craft : s'.norad_id ≡ s.norad_id

  -- An answer that is no acceptance, with the state as it was.
  pub record Refuses (s : Spacecraft Key) (r : Result Ack) (s' : Spacecraft Key) : Type 0 where
    pub unchanged : s'.state ≡ s.state
    pub same_craft : s'.norad_id ≡ s.norad_id
    pub same_keys : s'.ops_keys ≡ s.ops_keys
    pub counters : s'.store.counters ≡ s.store.counters
    pub not_accepted : (ack : Ack) → r ≡ ok ack → ack.result ≡ ack_rejected

  rejected_result : (n : ℤ) (e : Error) → (rejected n e).result ≡ ack_rejected
  unfolding rejected
  rejected_result n e = refl

  unverified-Refuses :
      (e : Error) (r : Result Command) (s : Spacecraft Key)
      → Refuses s (unverified lib codec read_body telemetry e r) s
  unfolding unverified
  unverified-Refuses e (ok c) s = record {
    unchanged = refl;
    same_craft = refl;
    same_keys = refl;
    counters = refl;
    not_accepted = λ ack h. ground (arith, rejected_result c.counter e);
  }
  unverified-Refuses e (err x) s = record {
    unchanged = refl;
    same_craft = refl;
    same_keys = refl;
    counters = refl;
    not_accepted = λ ack h. cc;
  }

  -- What a step of the spacecraft's `Uplink` leaves.
  abbrev pub Outcomes : Spacecraft Key → String → Result Ack × Spacecraft Key → Type 0
  Outcomes s token (r, s') =
      ((ack : Ack) × (r ≡ ok ack) × (ack.result ≡ ack_accepted) × Accepts s token ack s')
      ⊎ Refuses s r s'

  accept_lem :
      (cmd : Command) (t : Store) (s : Spacecraft Key) (token : String)
      → verify_object lib codec command_profile token s.ops_keys ≡ ok cmd
      → cmd.norad_id ≡ s.norad_id
      → advances (stored s) cmd.counter ≡ true
      → row (counter_name s.norad_id) t.counters ≡ some cmd.counter
      → Outcomes s token (accept lib codec read_body telemetry cmd t s)
  unfolding accept
  accept_lem cmd t s token signed own above recorded = inl (
    _,
    refl,
    refl,
    record {
      command = cmd;
      signed = signed;
      own = own;
      acked = refl;
      above = above;
      recorded = recorded;
      applied = refl;
      same_craft = refl;
    },
  )

  kept-Refuses :
      (s : Spacecraft Key) (r : Result Ack)
      → ((ack : Ack) → r ≡ ok ack → ack.result ≡ ack_rejected)
      → Refuses s r s
  kept-Refuses s r h = record {
    unchanged = refl;
    same_craft = refl;
    same_keys = refl;
    counters = refl;
    not_accepted = h;
  }

  rejected-Refuses : (s : Spacecraft Key) (n : ℤ) (e : Error) → Refuses s (ok (rejected n e)) s
  unfolding rejected
  rejected-Refuses s n e = kept-Refuses s (ok (rejected n e)) (λ ack h. ground arith)

  verified_lem :
      (fails : Bool) (cmd : Command) (s : Spacecraft Key) (token : String)
      → verify_object lib codec command_profile token s.ops_keys ≡ ok cmd
      → Outcomes s token (verified lib codec read_body telemetry fails cmd s)
  unfolding verified after_advance
  verified_lem fails cmd s token signed = elim (Bool-cases (eqb_ℤ cmd.norad_id s.norad_id)) [
    | inr e ↦ rw e (inr (rejected-Refuses s cmd.counter (named command_rejected_norad)))
    | inl e ↦ rw e (elim (advance_cases fails (counter_name s.norad_id) cmd.counter s.store) [
      | inl (x, h) ↦ rw h (inr (kept-Refuses s (err x) (λ ack q. cc)))
      | inr (inl (t, h, above, recorded)) ↦
          rw h (
            accept_lem cmd t s token signed ((eqb_ℤ_iff cmd.norad_id s.norad_id).0 e) above
              recorded)
      | inr (inr h) ↦ rw h (inr (rejected-Refuses s cmd.counter (named command_rejected_counter)))
    ])
  ]

  -- Every token is either accepted or refused.
  pub uplink_cases :
      (fails : Bool) (token : String) (s : Spacecraft Key)
      → Outcomes s token (uplink lib codec read_body telemetry fails token s)
  unfolding uplink
  uplink_cases fails token s = go (verify_object lib codec command_profile token s.ops_keys) refl
    where
      go :
          (r : Result Command)
          → verify_object lib codec command_profile token s.ops_keys ≡ r
          → Outcomes s token (elim r [
            | ok cmd ↦ verified lib codec read_body telemetry fails cmd s
            | err e ↦ (
              unverified lib codec read_body telemetry e
                  (peek_object lib codec command_profile token),
              s,
            )
          ])
      go (ok cmd) q = verified_lem fails cmd s token q
      go (err e) q = inr (unverified-Refuses e (peek_object lib codec command_profile token) s)

  Accepts-of_result :
      (s s' : Spacecraft Key) (token : String) (r : Result Ack) (ack : Ack)
      → Outcomes s token (r, s')
      → r ≡ ok ack
      → ack.result ≡ ack_accepted
      → Accepts s token ack s'
  Accepts-of_result s s' token r ack (inl (a, h, _, x)) e q =
      subst (λ (b : Ack). Accepts s token b s') (ground arith) x
  Accepts-of_result s s' token r ack (inr x) e q =
      absurd (accepted_not_rejected ack.result q (x.not_accepted ack e))

  -- An answer of ACCEPTED means that the token verified under an operations key as a command for
  -- this satellite, with a counter above the stored one, which is then stored and answered.
  pub accepted_shows :
      (fails : Bool) (token : String) (s s' : Spacecraft Key) (ack : Ack)
      → uplink lib codec read_body telemetry fails token s ≡ (ok ack, s')
      → ack.result ≡ ack_accepted
      → Accepts s token ack s'
  accepted_shows fails token s s' ack h q =
      Accepts-of_result s s' token (ok ack) ack
        (subst (Outcomes s token) h (uplink_cases fails token s)) refl q

  stored_same :
      (s t : Spacecraft Key)
      → t.norad_id ≡ s.norad_id
      → t.store.counters ≡ s.store.counters
      → stored t ≡ stored s
  stored_same s t e h = rw (e, h) refl

  Outcomes-AtMost :
      (s : Spacecraft Key) (token : String) (r : Result Ack × Spacecraft Key)
      → Outcomes s token r
      → AtMost (stored s) (stored r.1)
  Outcomes-AtMost s token r (inl (ack, _, _, a)) =
      rw a.recorded (advances-AtMost (stored s) a.command.counter a.above)
  Outcomes-AtMost s token r (inr x) =
      rw (stored_same s r.1 x.same_craft x.counters) (AtMost-refl (stored s))

  -- Whatever tokens arrive, the stored counter never goes down.
  run-stored :
      (ts : List (Bool × String)) (s : Spacecraft Key)
      → AtMost (stored s) (stored (run lib codec read_body telemetry ts s))
  unfolding run
  run-stored [] s = AtMost-refl (stored s)
  run-stored ((fails, token) ∷ ts) s =
      let next = uplink lib codec read_body telemetry fails token s in
      AtMost-trans (stored s) (stored next.1) _
        (Outcomes-AtMost s token next (uplink_cases fails token s)) (run-stored ts next.1)

  -- Once a command is accepted, whatever tokens come between, each command that is accepted later
  -- has a higher counter, so no command is executed twice.
  pub no_replay :
      (fails later : Bool) (token token' : String) (s t u : Spacecraft Key) (ack ack' : Ack)
      (ts : List (Bool × String))
      → uplink lib codec read_body telemetry fails token s ≡ (ok ack, t)
      → ack.result ≡ ack_accepted
      → uplink lib codec read_body telemetry later token' (run lib codec read_body telemetry ts t)
        ≡ (ok ack', u)
      → ack'.result ≡ ack_accepted
      → ack.counter <ℤ ack'.counter
  no_replay fails later token token' s t u ack ack' ts h q k r =
      let a = accepted_shows fails token s t ack h q in
      let b = accepted_shows later token' (run lib codec read_body telemetry ts t) u ack' k r in
      rw (a.acked, b.acked)
        (above_stored (stored (run lib codec read_body telemetry ts t)) a.command.counter
          b.command.counter
          (subst (λ (o : Option ℤ). AtMost o (stored (run lib codec read_body telemetry ts t)))
            a.recorded (run-stored ts t))
          b.above)
