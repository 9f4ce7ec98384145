-- ===== src/Session/Relays.antt =====
-- What a relayed command has passed, what a session's records are, and that a closed session stays
-- closed (session/station.go).
use overpass.Prelude.{
  if_true, ◌≡◌, ◌⊎◌, refl, sym, ap, ◌∙◌, subst, Bool, true, false, not, ◌||◌, Option, none, some,
  List, [], ◌∷◌, String, arith, inl, inr, Bool-cases, All, All-append, if◌then◌else◌,
}
use overpass.Prelude.Int.{ℤ, ltb_ℤ}
use overpass.Prelude.Text.{same, same_eq, contains}
use overpass.Errs.{
  Code, Result, named, ok, err, bind_ok, require_then, window_closed, class_rejected,
  command_rejected_mand_id, command_rejected_counter,
}
use overpass.Jose.{Library}
use overpass.Schema.{Mandate, Command, CommandRecord, Ack}
use overpass.Schema.Decode.{Codec, command_profile, mandate_profile, peek_object}
use overpass.Chain.{Chain, Digest, new, append, cmd_sha256_of}
use overpass.Chain.Walk.{IsWalked, new-IsWalked, append-IsWalked, append_record}
use overpass.Store.{Store, get_booking}
use overpass.Keeper.{Keeper}
use overpass.Monitor.{Monitor, Reading, new_monitor, tick}
use overpass.Session.{
  Session, Input, window_end, window_start, over, end_session, stale, valid_ack, keep_ack, relayed,
  check_command, send, opened, rechecked, watch_with, watched, relay, open_session, booked, Event,
  relays, ends, ticks, ticked, background, keeper_becomes, step, run,
}

either_way : (b : Bool) (P : Session → Type 0) (s t : Session) → P s → P t → P (if b then s else t)
either_way true P s t p q = p
either_way false P s t p q = q

-- The pass is the same one.
pub record SamePass (s s' : Session) : Type 0 where
  pub booking : s'.booking ≡ s.booking
  pub mandate : s'.mandate ≡ s.mandate

SamePass-refl : (s : Session) → SamePass s s
SamePass-refl s = record { booking = refl; mandate = refl }

keep_ack-SamePass : (n : ℤ) (o : Option Ack) (s : Session) → SamePass s (keep_ack n o s).1
unfolding keep_ack
keep_ack-SamePass n none s = record { booking = refl; mandate = refl }
keep_ack-SamePass n (some a) s = record { booking = refl; mandate = refl }

keep_ack-chain : (n : ℤ) (o : Option Ack) (s : Session) → (keep_ack n o s).1.chain ≡ s.chain
unfolding keep_ack
keep_ack-chain n none s = refl
keep_ack-chain n (some a) s = refl

module _ (lib : Library) (codec : Codec Command) (mandate_codec : Codec Mandate) (d : Digest)
    (status_active : String) where
  -- A command that passed the checks before it is sent.
  pub record Allowed (token : String) (s : Session) (cmd : Command) : Type 0 where
    pub peeked : peek_object lib codec command_profile token ≡ ok cmd
    pub class : contains s.mandate.command_classes cmd.class ≡ true
    pub mandate : cmd.mandate_id ≡ s.booking.mandate_id
    pub fresh : stale cmd.counter s.chain.records ≡ false

  pub check_command-Allowed :
      (token : String) (s : Session) (cmd : Command)
      → check_command lib codec mandate_codec d status_active token s ≡ ok cmd
      → Allowed token s cmd
  unfolding check_command
  check_command-Allowed token s cmd h =
      bind_ok (peek_object lib codec command_profile token) _ h λ x peeked h1.
        let (c, h2) =
          require_then (contains s.mandate.command_classes x.class) class_rejected _ h1 in
        let (m, h3) =
          require_then (same x.mandate_id s.booking.mandate_id) command_rejected_mand_id _ h2 in
        let (f, h4) =
          require_then (not (stale x.counter s.chain.records)) command_rejected_counter (ok x) h3 in
        let e : x ≡ cmd = ground (arith, h4) in
        subst (Allowed token s) e (record {
          peeked = peeked;
          class = c;
          mandate = same_eq x.mandate_id s.booking.mandate_id m;
          fresh = ground (arith, f);
        })

  -- The chain is as it was, or has one more record, of an allowed command.
  pub Grows : String → Session → Chain → Type 0
  Grows token s c =
      (c ≡ s.chain)
      ⊎ ((cmd : Command) × (r : CommandRecord) × Allowed token s cmd
          × (append d s.chain cmd.counter cmd.mandate_id cmd.class (cmd_sha256_of d token)
              ≡ ok (r, c)))

  pub record Continues (token : String) (s s' : Session) : Type 0 where
    pub same_pass : SamePass s s'
    pub chain : Grows token s s'.chain

  relayed-Continues :
      (token : String) (cmd : Command) (answer : Result Ack) (s : Session)
      (x : Result (CommandRecord × Chain))
      → Allowed token s cmd
      → append d s.chain cmd.counter cmd.mandate_id cmd.class (cmd_sha256_of d token) ≡ x
      → Continues token s (relayed cmd answer x s).1
  unfolding relayed Grows
  relayed-Continues token cmd answer s (err e) a h = record {
    same_pass = SamePass-refl s;
    chain = inl refl;
  }
  relayed-Continues token cmd answer s (ok (r, c)) a h =
      let k =
        keep_ack-SamePass cmd.counter (valid_ack cmd.counter answer) (record s { chain = c }) in
      record {
        same_pass = record { booking = k.booking; mandate = k.mandate };
        chain = inr (
          cmd,
          r,
          a,
          h
              ∙ ap (λ (y : Chain). ok (r, y))
                  (sym (
                    keep_ack-chain cmd.counter (valid_ack cmd.counter answer)
                      (record s { chain = c }))),
        );
      }

  send-Continues :
      (i : Input) (s : Session) (x : Result Command)
      → check_command lib codec mandate_codec d status_active i.token s ≡ x
      → Continues i.token s (send lib codec mandate_codec d status_active i s x).1
  unfolding send Grows
  send-Continues i s (err e) h = record { same_pass = SamePass-refl s; chain = inl refl }
  send-Continues i s (ok cmd) h =
      relayed-Continues i.token cmd i.answer s _ (check_command-Allowed i.token s cmd h) refl

  -- The monitor has no part in what a relay did to the pass.
  abbrev pub with_monitor : Session → Option Monitor → Session
  with_monitor s m = record s { monitor = m }

  Continues-with_monitor :
      (token : String) (s t : Session) (m : Option Monitor)
      → Continues token (with_monitor s m) t
      → Continues token s t
  unfolding Grows
  Continues-with_monitor token s t m v = record {
    same_pass = record { booking = v.same_pass.booking; mandate = v.same_pass.mandate };
    chain = elim v.chain [
      | inl e ↦ inl e
      | inr (cmd, r, a, h) ↦ inr (
        cmd,
        r,
        record { peeked = a.peeked; class = a.class; mandate = a.mandate; fresh = a.fresh },
        h,
      )
    ];
  }

  pub watch_session :
      (o : Option Monitor) (i : Input) (s : Session) (k : Keeper)
      → (m : Option Monitor) × ((watch_with lib codec mandate_codec d status_active o i s k).1
          ≡ with_monitor s m)
  unfolding watch_with rechecked opened
  watch_session none i s k = go (tick status_active i.reading (new_monitor i.caller.agent_id) k)
    where
      go :
          (x : Option Code × Monitor × Keeper)
          → (m : Option Monitor) × ((opened lib codec mandate_codec d status_active x s).1
              ≡ with_monitor s m)
      go (some c, m, k) = (s.monitor, refl)
      go (none, m, k) = (some m, refl)
  watch_session (some m) i s k = (_, refl)

  watched-Continues :
      (i : Input) (s : Session) (m : Option Monitor) (w : Option Code × Session × Keeper)
      → w.1 ≡ with_monitor s m
      → Continues i.token s (watched lib codec mandate_codec d status_active i w).1
  unfolding watched
  watched-Continues i s m (some c, t, k) e = subst (Continues i.token s) (sym e) (
      Continues-with_monitor i.token s (with_monitor s m) m
        (record { same_pass = SamePass-refl _; chain = unfold Grows in inl refl }))
  watched-Continues i s m (none, t, k) e =
      subst
        (λ (x : Session).
          Continues i.token s
            (send lib codec mandate_codec d status_active i x
              (check_command lib codec mandate_codec d status_active i.token x)).1)
        (sym e) (Continues-with_monitor i.token s _ m (send-Continues i (with_monitor s m) _ refl))

  end_session-Continues : (token : String) (s : Session) → Continues token s (end_session s)
  unfolding end_session Grows
  end_session-Continues token s =
      either_way s.closed (Continues token s) s (record s { closed = true })
        (record { same_pass = SamePass-refl s; chain = inl refl })
        (record { same_pass = record { booking = refl; mandate = refl }; chain = inl refl })

  unchanged-Continues : (token : String) (s : Session) → Continues token s s
  unchanged-Continues token s = record {
    same_pass = SamePass-refl s;
    chain = unfold Grows in inl refl;
  }

  -- A call of `Relay` keeps the pass, and adds at most the record of an allowed command.
  relay-Continues :
      (i : Input) (s : Session) (k : Keeper)
      → Continues i.token s (relay lib codec mandate_codec d status_active i s k).1
  unfolding relay
  relay-Continues i s k = elim (Bool-cases (over s i.now)) [
    | inl e ↦ rw e (end_session-Continues i.token s)
    | inr e ↦ elim (Bool-cases (ltb_ℤ i.now (window_start s))) [
      | inl f ↦ rw (e, f) (unchanged-Continues i.token s)
      | inr f ↦ elim (Bool-cases (same i.caller.jkt s.mandate.jkt)) [
        | inr g ↦ rw (e, f, g) (unchanged-Continues i.token s)
        | inl g ↦
            let (m, h) = watch_session s.monitor i s k in
            rw (e, f, g)
              (watched-Continues i s m
                (watch_with lib codec mandate_codec d status_active s.monitor i s k) h)
      ]
    ]
  ]

  -- The chain of a session walks from the genesis hash to its head, and each of its records is of a
  -- class that the mandate allows and names the booking's mandate.
  pub record IsSteady (s : Session) : Type 0 where
    pub walked : IsWalked d s.chain
    pub classes : All (λ r. contains s.mandate.command_classes r.class ≡ true) s.chain.records
    pub mandates : All (λ r. r.mandate_id ≡ s.booking.mandate_id) s.chain.records

  grown-IsSteady :
      (token : String) (s : Session) (c : Chain)
      → IsSteady s
      → Grows token s c
      → IsSteady (record s { chain = c })
  unfolding Grows
  grown-IsSteady token s c v (inl e) = record {
    walked = rw e v.walked;
    classes = rw e v.classes;
    mandates = rw e v.mandates;
  }
  grown-IsSteady token s c v (inr (cmd, r, a, h)) =
      let (_, id, class, _, rows) =
        append_record d s.chain cmd.counter cmd.mandate_id cmd.class (cmd_sha256_of d token) r c
          h in
      record {
        walked =
            append-IsWalked d s.chain cmd.counter cmd.mandate_id cmd.class (cmd_sha256_of d token) r
              c v.walked h;
        classes = rw rows (
            All-append (λ (x : CommandRecord). contains s.mandate.command_classes x.class ≡ true)
              s.chain.records (r ∷ []) v.classes (rw class a.class, tt));
        mandates = rw rows (
            All-append (λ (x : CommandRecord). x.mandate_id ≡ s.booking.mandate_id) s.chain.records
              (r ∷ []) v.mandates (id ∙ a.mandate, tt));
      }

  continued-IsSteady :
      (token : String) (s t : Session) → IsSteady s → Continues token s t → IsSteady t
  continued-IsSteady token s t v c =
      let g = grown-IsSteady token s t.chain v c.chain in
      record {
        walked = g.walked;
        classes = rw c.same_pass.mandate g.classes;
        mandates = rw c.same_pass.booking g.mandates;
      }

  ticked-IsSteady :
      (o : Option Monitor) (r : Reading) (s : Session) (k : Keeper)
      → IsSteady s
      → IsSteady (ticked lib codec mandate_codec d status_active o r s k).0
  unfolding ticked
  ticked-IsSteady none r s k v = v
  ticked-IsSteady (some m) r s k v = record {
    walked = v.walked;
    classes = v.classes;
    mandates = v.mandates;
  }

  background-IsSteady :
      (r : Reading) (s : Session) (k : Keeper)
      → IsSteady s
      → IsSteady (background lib codec mandate_codec d status_active r s k).0
  unfolding background
  background-IsSteady r s k v = go s.closed
    where
      go :
          (b : Bool)
          → IsSteady
              (if b
                then (s, k)
                else ticked lib codec mandate_codec d status_active s.monitor r s k).0
      go true = v
      go false = ticked-IsSteady s.monitor r s k v

  step-IsSteady :
      (e : Event lib codec mandate_codec d status_active) (s : Session) (k : Keeper)
      → IsSteady s
      → IsSteady (step lib codec mandate_codec d status_active e (s, k)).0
  unfolding step
  step-IsSteady (relays i) s k v = continued-IsSteady i.token s _ v (relay-Continues i s k)
  step-IsSteady ends s k v = continued-IsSteady "" s _ v (end_session-Continues "" s)
  step-IsSteady (ticks r) s k v = background-IsSteady r s k v
  step-IsSteady (keeper_becomes k') s k v = v

  run-IsSteady :
      (es : List (Event lib codec mandate_codec d status_active)) (s : Session) (k : Keeper)
      → IsSteady s
      → IsSteady (run lib codec mandate_codec d status_active es (s, k)).0
  unfolding run
  run-IsSteady [] s k v = v
  run-IsSteady (e ∷ es) s k v =
      run-IsSteady es (step lib codec mandate_codec d status_active e (s, k)).0
        (step lib codec mandate_codec d status_active e (s, k)).1 (step-IsSteady e s k v)

  open_session-IsSteady :
      (fails : Bool) (id : String) (st : Store) (s : Session)
      → open_session lib codec mandate_codec d status_active fails id st ≡ ok s
      → IsSteady s
  unfolding open_session new
  open_session-IsSteady fails id st s h = bind_ok (get_booking fails id st) _ h λ found _ h1.
      bind_ok (booked found) _ h1 λ b _ h2.
        bind_ok (peek_object lib mandate_codec mandate_profile b.mandate) _ h2 λ m _ h3.
          let e : record {
            booking = b;
            mandate = m;
            chain = new;
            acks = [];
            missing = [];
            monitor = none;
            closed = false;
          }
              ≡ s =
            ground arith in
          subst IsSteady e (record { walked = new-IsWalked d; classes = tt; mandates = tt })

  -- From a session that was opened for a booking, whatever calls come, its chain walks from the
  -- genesis hash to its head (so its counters rise), and each record is of a class that the mandate
  -- allows and names the booking's mandate.
  pub opened_run-IsSteady :
      (fails : Bool) (id : String) (st : Store) (s : Session) (k : Keeper)
      (es : List (Event lib codec mandate_codec d status_active))
      → open_session lib codec mandate_codec d status_active fails id st ≡ ok s
      → IsSteady (run lib codec mandate_codec d status_active es (s, k)).0
  opened_run-IsSteady fails id st s k es h =
      run-IsSteady es s k (open_session-IsSteady fails id st s h)

  end_session-of_closed : (s : Session) → s.closed ≡ true → end_session s ≡ s
  unfolding end_session
  end_session-of_closed s h = if_true s.closed s (record s { closed = true }) h

  relay-of_closed :
      (i : Input) (s : Session) (k : Keeper)
      → s.closed ≡ true
      → relay lib codec mandate_codec d status_active i s k ≡ (err (named window_closed), s, k)
  unfolding relay
  relay-of_closed i s k h =
      if_true (over s i.now) _ _ (ap (λ (b : Bool). b || ltb_ℤ (window_end s) i.now) h)
      ∙ ap (λ (t : Session). (err (named window_closed), t, k)) (end_session-of_closed s h)

  background-of_closed :
      (r : Reading) (s : Session) (k : Keeper)
      → s.closed ≡ true
      → background lib codec mandate_codec d status_active r s k ≡ (s, k)
  unfolding background
  background-of_closed r s k h = if_true s.closed _ _ h

  step-of_closed :
      (e : Event lib codec mandate_codec d status_active) (s : Session) (k : Keeper)
      → s.closed ≡ true
      → (step lib codec mandate_codec d status_active e (s, k)).0 ≡ s
  unfolding step
  step-of_closed (relays i) s k h =
      ap (λ (r : Result Ack × Session × Keeper). r.1) (relay-of_closed i s k h)
  step-of_closed ends s k h = end_session-of_closed s h
  step-of_closed (ticks r) s k h = ap (λ (x : Session × Keeper). x.0) (background-of_closed r s k h)
  step-of_closed (keeper_becomes k') s k h = refl

  run-of_closed :
      (es : List (Event lib codec mandate_codec d status_active)) (s : Session) (k : Keeper)
      → s.closed ≡ true
      → (run lib codec mandate_codec d status_active es (s, k)).0 ≡ s
  unfolding run
  run-of_closed [] s k h = refl
  run-of_closed (e ∷ es) s k h =
      let p = step-of_closed e s k h in
      run-of_closed es (step lib codec mandate_codec d status_active e (s, k)).0
        (step lib codec mandate_codec d status_active e (s, k)).1
        (ap (λ (t : Session). t.closed) p ∙ h)
      ∙ p

  -- Once a session is closed, whatever calls come, its evidence stays as it is and each relay is
  -- refused with WINDOW_CLOSED.
  pub closed_is_final :
      (es : List (Event lib codec mandate_codec d status_active)) (i : Input) (s : Session)
      (k k' : Keeper)
      → s.closed ≡ true
      → ((run lib codec mandate_codec d status_active es (s, k)).0 ≡ s)
        × (relay lib codec mandate_codec d status_active i
              (run lib codec mandate_codec d status_active es (s, k)).0
              k'
            ≡ (err (named window_closed), s, k'))
  closed_is_final es i s k k' h =
      let e = run-of_closed es s k h in
      (
        e,
        subst
            (λ (t : Session).
              relay lib codec mandate_codec d status_active i t k'
              ≡ (err (named window_closed), s, k'))
            (sym e) (relay-of_closed i s k' h),
      )
