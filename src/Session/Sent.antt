-- ===== src/Session/Sent.antt =====
-- What a relayed command with an answer has passed (session/station.go).
use overpass.Prelude.{
  ◌≡◌, refl, sym, ap, ◌∙◌, subst, true, false, ◌&&◌, Option, none, some, ◌∷◌, String, arith, inl,
  inr, Bool-cases, and_parts,
}
use overpass.Prelude.Int.{ℤ, ◌≤ℤ◌, ltb_ℤ, eqb_ℤ, eqb_ℤ_iff}
use overpass.Prelude.Text.{same, same_eq}
use overpass.Errs.{Code, Result, ok, err}
use overpass.Jose.{Library}
use overpass.Schema.{Mandate, Command, CommandRecord, Ack}
use overpass.Schema.Validate.{ack_valid}
use overpass.Schema.Decode.{Codec}
use overpass.Chain.{Chain, Digest, append, cmd_sha256_of}
use overpass.Keeper.{Keeper}
use overpass.Monitor.{Monitor}
use overpass.Session.{
  Session, Input, window_start, over, valid_ack, keep_ack, relayed, check_command, send, watch_with,
  watched, relay,
}
use overpass.Session.Relays.{Allowed, check_command-Allowed, with_monitor, watch_session}

valid_ack-eq-some :
    (n : ℤ) (r : Result Ack) (a : Ack)
    → valid_ack n r ≡ some a
    → (r ≡ ok a) × (ack_valid a ≡ true) × (a.counter ≡ n)
unfolding valid_ack
valid_ack-eq-some n (err e) a h = cc
valid_ack-eq-some n (ok b) a h = elim (Bool-cases (ack_valid b && eqb_ℤ b.counter n)) [
  | inr e ↦ let q = rw e at h in cc
  | inl e ↦
      let q : Path (Option Ack) (some b) (some a) = rw e at h in
      let p : b ≡ a = ground (arith, q) in
      let (v, c) = and_parts (ack_valid b) (eqb_ℤ b.counter n) e in
      (ap ok p, rw (← p) v, rw (← p) ((eqb_ℤ_iff b.counter n).0 c))
]

keep_ack-eq-ok :
    (n : ℤ) (o : Option Ack) (s t : Session) (a : Ack)
    → keep_ack n o s ≡ (ok a, t)
    → (o ≡ some a) × (t ≡ record s { acks = (n, a) ∷ s.acks })
unfolding keep_ack
keep_ack-eq-ok n none s t a h = cc
keep_ack-eq-ok n (some b) s t a h =
    let p : b ≡ a = ground arith in
    (ap some p, rw (← p) (sym (ap (λ (r : Result Ack × Session). r.1) h)))

module _ (lib : Library) (codec : Codec Command) (mandate_codec : Codec Mandate) (d : Digest)
    (status_active : String) where
  -- What an answered command has shown, and what it left.
  pub record Sent (i : Input) (s : Session) (ack : Ack) (t : Session) : Type 0 where
    pub command : Command
    pub row : CommandRecord
    pub allowed : Allowed lib codec mandate_codec d status_active i.token s command
    pub answered : i.answer ≡ ok ack
    pub valid : ack_valid ack ≡ true
    pub acked : ack.counter ≡ command.counter
    pub chained :
        append d s.chain command.counter command.mandate_id command.class (cmd_sha256_of d i.token)
        ≡ ok (row, t.chain)
    pub kept : t.acks ≡ (command.counter, ack) ∷ s.acks

  relayed-Sent :
      (i : Input) (s t : Session) (cmd : Command) (ack : Ack) (x : Result (CommandRecord × Chain))
      → Allowed lib codec mandate_codec d status_active i.token s cmd
      → append d s.chain cmd.counter cmd.mandate_id cmd.class (cmd_sha256_of d i.token) ≡ x
      → relayed cmd i.answer x s ≡ (ok ack, t)
      → Sent i s ack t
  unfolding relayed
  relayed-Sent i s t cmd ack (err e) a h q = cc
  relayed-Sent i s t cmd ack (ok (r, c)) a h q =
      let (found, left) =
        keep_ack-eq-ok cmd.counter (valid_ack cmd.counter i.answer) (record s { chain = c }) t ack
          q in
      let (answered, valid, counter) = valid_ack-eq-some cmd.counter i.answer ack found in
      record {
        command = cmd;
        row = r;
        allowed = a;
        answered = answered;
        valid = valid;
        acked = counter;
        chained = h ∙ ap (λ (y : Session). ok (r, y.chain)) (sym left);
        kept = ap (λ (y : Session). y.acks) left;
      }

  send-Sent :
      (i : Input) (s t : Session) (ack : Ack) (x : Result Command)
      → check_command lib codec mandate_codec d status_active i.token s ≡ x
      → send lib codec mandate_codec d status_active i s x ≡ (ok ack, t)
      → Sent i s ack t
  unfolding send
  send-Sent i s t ack (err e) h q = cc
  send-Sent i s t ack (ok cmd) h q =
      relayed-Sent i s t cmd ack _
        (check_command-Allowed lib codec mandate_codec d status_active i.token s cmd h) refl q

  Sent-with_monitor :
      (i : Input) (s t : Session) (m : Option Monitor) (ack : Ack)
      → Sent i (with_monitor lib codec mandate_codec d status_active s m) ack t
      → Sent i s ack t
  Sent-with_monitor i s t m ack v = record {
    command = v.command;
    row = v.row;
    allowed = record {
      peeked = v.allowed.peeked;
      class = v.allowed.class;
      mandate = v.allowed.mandate;
      fresh = v.allowed.fresh;
    };
    answered = v.answered;
    valid = v.valid;
    acked = v.acked;
    chained = v.chained;
    kept = v.kept;
  }

  watched-Sent :
      (i : Input) (s t : Session) (m : Option Monitor) (ack : Ack) (k' : Keeper)
      (w : Option Code × Session × Keeper)
      → w.1 ≡ with_monitor lib codec mandate_codec d status_active s m
      → watched lib codec mandate_codec d status_active i w ≡ (ok ack, t, k')
      → Sent i s ack t
  unfolding watched
  watched-Sent i s t m ack k' (some c, u, k) e h = cc
  watched-Sent i s t m ack k' (none, u, k) e h =
      let f : Path (Result Ack × Session)
          (send lib codec mandate_codec d status_active i u
            (check_command lib codec mandate_codec d status_active i.token u))
          (ok ack, t) =
        ap (λ (r : Result Ack × Session × Keeper). (r.0, r.1)) h in
      Sent-with_monitor i s t m ack
        (subst (λ (y : Session). Sent i y ack t) e (send-Sent i u t ack _ refl f))

  -- A relay that answers with an acknowledgement came within the window of an open session, from
  -- the mandate's key; its command peeks, is of a class of the mandate, names the booking's mandate
  -- and is above the last relayed counter; the chain grew by its record; and the acknowledgement is
  -- the spacecraft's valid one of that counter, which is kept.
  pub relay_shows :
      (i : Input) (s t : Session) (k k' : Keeper) (ack : Ack)
      → relay lib codec mandate_codec d status_active i s k ≡ (ok ack, t, k')
      → (over s i.now ≡ false)
        × (window_start s ≤ℤ i.now)
        × (i.caller.jkt ≡ s.mandate.jkt)
        × Sent i s ack t
  unfolding relay
  relay_shows i s t k k' ack h = elim (Bool-cases (over s i.now)) [
    | inl e ↦ let q = rw e at h in cc
    | inr e ↦ elim (Bool-cases (ltb_ℤ i.now (window_start s))) [
      | inl f ↦ let q = rw (e, f) at h in cc
      | inr f ↦ elim (Bool-cases (same i.caller.jkt s.mandate.jkt)) [
        | inr g ↦ let q = rw (e, f, g) at h in cc
        | inl g ↦
            let q = rw (e, f, g) at h in
            let (m, w) = watch_session lib codec mandate_codec d status_active s.monitor i s k in
            (
              e,
              ground (arith, f),
              same_eq i.caller.jkt s.mandate.jkt g,
              watched-Sent i s t m ack k'
                  (watch_with lib codec mandate_codec d status_active s.monitor i s k) w q,
            )
      ]
    ]
  ]
