-- ===== src/Auditor/Delivery.antt =====
-- When an audit passes, and what its observation counts (auditor/auditor.go).
use overpass.Prelude.{
  ℕ, ◌+◌, ◌≡◌, ◌≢◌, ◌↔◌, refl, sym, ap, ◌∙◌, Bool, true, false, not, ◌&&◌, List, [], ◌∷◌, String,
  arith, All, All-weaken, count, length, ◌==◌, Bool-cases, and_parts, inl, inr, if◌then◌else◌,
  if_true, subst, eq_refl,
}
use overpass.Prelude.Int.{ℤ}
use overpass.Prelude.Text.{same, same_eq}
use overpass.Errs.{Code, Result, ok, err, bind_ok, ok_injective}
use overpass.Jose.{Library}
use overpass.Schema.{AuditReport, BookingReceipt, CommandRecord, Mandate}
use overpass.Schema.Decode.{Codec}
use overpass.Schema.Validate.{audit_report_valid}
use overpass.Session.{Evidence}
use overpass.Peer
use overpass.Peer.{is_ok}
use overpass.Auditor.{
  PassEvidence, Observation, audit, checks_of, check_of, passes, Finding, findings, report_of,
  observation_of, finished, identity_holds, audited_receipt, audited_mandate, bound, succeeds,
  heads_match, count_missing, is_acked, distance, failures, verdict_of,
}

count-none :
    {A : Type 0} (p : A → Bool) (xs : List A) → (count p xs ≡ 0) ↔ All (λ x. p x ≡ false) xs
count-none p [] = (λ h. tt, λ h. refl)
count-none p (x ∷ xs) = elim (Bool-cases (p x)) [
  | inl e ↦ rw e (λ h. absurd (omega arith), λ h. cc)
  | inr e ↦ rw e (λ h. (refl, (count-none p xs).0 h), λ h. (count-none p xs).1 h.1)
]

-- Every command of the station has its acknowledgement, and both sides recorded as many.
abbrev pub Complete : PassEvidence → Type 0
Complete ev =
    All (λ r. is_acked ev.station r.counter ≡ true) ev.station.records
    × (length ev.ops.records ≡ length ev.station.records)

none_missing : (b : Bool) → not b ≡ false → b ≡ true
none_missing b h = ground arith

missing_iff : (m a b : ℕ) → ((if a == b then m else m + distance a b) ≡ 0) ↔ ((m ≡ 0) × (a ≡ b))
missing_iff m a b = ground arith

all_acked :
    (e : Evidence) (rs : List CommandRecord)
    → (count (λ r. not (is_acked e r.counter)) rs ≡ 0) ↔ All (λ r. is_acked e r.counter ≡ true) rs
all_acked e rs =
    let (f, g) = count-none {A = CommandRecord} (λ r. not (is_acked e r.counter)) rs in
    (
      λ h. All-weaken rs (λ r k. none_missing _ k) (f h),
      λ h. g (All-weaken rs (λ r k. rw k refl) h),
    )

count_missing-Complete : (ev : PassEvidence) → (count_missing ev ≡ 0) ↔ Complete ev
unfolding count_missing
count_missing-Complete ev =
    let (f, g) =
      missing_iff
        (count {A = CommandRecord} (λ r. not (is_acked ev.station r.counter)) ev.station.records)
        (length ev.ops.records) (length ev.station.records) in
    let (p, q) = all_acked ev.station ev.station.records in
    (λ h. (p (f h).0, (f h).1), λ h. g (q h.0, h.1))

check_of_lem :
    (name : String) (b : Bool) (c : Code)
    → (same (check_of name b c).result "fail" ≡ false) ↔ (b ≡ true)
unfolding check_of
check_of_lem name true c = (λ h. refl, λ h. refl)
check_of_lem name false c = (λ h. cc, λ h. cc)

failures-passes : (fs : List Finding) → (failures (checks_of fs) ≡ 0) ↔ (passes fs ≡ true)
failures-passes [] = (λ h. refl, λ h. refl)
failures-passes ((n, b, c) ∷ fs) =
    let (f, g) = failures-passes fs in
    let (p, q) = check_of_lem n b c in
    elim (Bool-cases (same (check_of n b c).result "fail")) [
      | inl e ↦ rw e (λ h. absurd (omega arith), λ h. absurd (ground arith))
      | inr e ↦ rw (e, p e) (f, g)
    ]

zero_test : (n : ℕ) → ((n == 0) ≡ true) ↔ (n ≡ 0)
zero_test n = ground arith

verdict_of_lem : (b : Bool) → (verdict_of b ≡ "pass") ↔ (b ≡ true)
verdict_of_lem true = (λ h. refl, λ h. refl)
verdict_of_lem false = (λ h. let e : false ≡ true = ap (λ s. same s "pass") h in cc, λ h. cc)

unequal_iff : (s t : String) → (not (same s t) ≡ true) ↔ (s ≢ t)
unequal_iff s t = (
  λ h e. unequal h (rw e (eq_refl t)),
  λ h. elim (Bool-cases (same s t)) [ inl e ↦ absurd (h (same_eq s t e)) | inr e ↦ rw e refl ],
)
  where
    unequal : {b : Bool} → not b ≡ true → b ≡ true → ⊥
    unequal h e = ground arith

same_iff : (s t : String) → (same s t ≡ true) ↔ (s ≡ t)
same_iff s t = (same_eq s t, λ h. rw h (eq_refl t))

and_iff :
    (a b : Bool) {P Q : Type 0} → (a ≡ true) ↔ P → (b ≡ true) ↔ Q → ((a && b) ≡ true) ↔ (P × Q)
and_iff a b p q =
    (λ h. let (x, y) = and_parts a b h in (p.0 x, q.0 y), λ h. rw (p.1 h.0, q.1 h.1) refl)

-- The receipt and the mandate verify, and belong together.
abbrev pub Belongs : Result Mandate → Result BookingReceipt → Type 0
Belongs (ok m) (ok r) = (m.jkt ≢ "") × (r.mandate_id ≡ m.mandate_id)
Belongs _ _ = ⊥

bound-Belongs :
    (m : Result Mandate) (r : Result BookingReceipt)
    → ((succeeds r && succeeds m && bound m r) ≡ true) ↔ Belongs m r
bound-Belongs (ok m) (ok r) =
    and_iff (not (same m.jkt "")) (same r.mandate_id m.mandate_id) (unequal_iff m.jkt "")
      (same_iff r.mandate_id m.mandate_id)
bound-Belongs (ok m) (err e) = (λ h. cc, λ h. absurd h)
bound-Belongs (err e) (ok r) = (λ h. cc, λ h. absurd h)
bound-Belongs (err e) (err f) = (λ h. cc, λ h. absurd h)

both : {A B C : Type 0} → A ↔ B → B ↔ C → A ↔ C
both f g = (λ a. g.0 (f.0 a), λ c. f.1 (g.1 c))

regroup :
    (i r m b h a : Bool)
    → (i && (r && (m && (b && (h && (a && true)))))) ≡ (i && (r && m && b) && h && a)
regroup i r m b h a = ground arith

module _ (sign : AuditReport → Result String) (iss : String) (iat : ℤ) (lib : Library)
    (receipts : Codec BookingReceipt) (mandates : Codec Mandate) (authority_keys : List lib.Key)
    (station_keys : String → List lib.Key) (peers : String → Peer.Result) where
  abbrev mandate_of_pass : PassEvidence → Result Mandate
  mandate_of_pass ev =
      audited_mandate sign iss iat lib receipts mandates authority_keys station_keys peers ev

  abbrev receipt_of_pass : String → PassEvidence → Result BookingReceipt
  receipt_of_pass host ev =
      audited_receipt sign iss iat lib receipts mandates authority_keys station_keys peers host ev

  abbrev found : String → String → PassEvidence → List Finding
  found host station ev =
      findings sign iss iat lib receipts mandates authority_keys station_keys peers host station ev

  -- A pass that was delivered: the station is who it says, receipt and mandate verify and belong
  -- together, both chains end in one head, and no acknowledgement is missing.
  abbrev pub Delivered : String → String → PassEvidence → Type 0
  Delivered host station ev =
      (((((is_ok (peers host) ≡ true) × ((peers host).ans_name ≡ station))
            × Belongs (mandate_of_pass ev) (receipt_of_pass host ev))
          × ((ev.ops.head ≢ "") × (ev.ops.head ≡ ev.station.head)))
        × Complete ev)

  passes-Delivered :
      (host station : String) (ev : PassEvidence)
      → (passes (found host station ev) ≡ true) ↔ Delivered host station ev
  unfolding findings identity_holds
  passes-Delivered host station ev =
      let named =
        and_iff (is_ok (peers host)) (same (peers host).ans_name station) (λ h. h, λ h. h)
          (same_iff (peers host).ans_name station) in
      let m = mandate_of_pass ev in
      let r = receipt_of_pass host ev in
      let documents = and_iff _ (succeeds r && succeeds m && bound m r) named (bound-Belongs m r) in
      let heads =
        and_iff _ (heads_match ev) documents
          (and_iff _ _ (unequal_iff ev.ops.head "") (same_iff ev.ops.head ev.station.head)) in
      let acks =
        and_iff _ (count_missing ev == 0) heads (both (zero_test _) (count_missing-Complete ev)) in
      rw (regroup (is_ok (peers host) && same (peers host).ans_name station) _ _ _ _ _) acks

  finished_lem :
      (a : AuditReport) (o : Observation) {x : AuditReport × String × Observation}
      → finished sign a o ≡ ok x
      → (a ≡ x.0) × (o ≡ x.2)
  unfolding finished
  finished_lem a o {x} h = elim (Bool-cases (audit_report_valid a)) [
    | inl v ↦ bind_ok (sign a) _ (sym (if_true _ _ _ v) ∙ h) λ tok s k. (
      ap {A = AuditReport × String × Observation} (λ y. y.0) (ok_injective k),
      ap {A = AuditReport × String × Observation} (λ y. y.2) (ok_injective k),
    )
    | inr v ↦ absurd (ground arith)
  ]

  -- An audit that is signed passes exactly where the pass was delivered, and its observation counts
  -- no failed check exactly then.
  pub audit-Delivered :
      (host station pass_id : String) (ev : PassEvidence) (rep : AuditReport) (tok : String)
      (o : Observation)
      → audit sign iss iat lib receipts mandates authority_keys station_keys peers host station
          pass_id ev
        ≡ ok (rep, tok, o)
      → ((rep.verdict ≡ "pass") ↔ Delivered host station ev)
        × ((o.audit_failures ≡ 0) ↔ Delivered host station ev)
  unfolding audit report_of observation_of
  audit-Delivered host station pass_id ev rep tok o h =
      let (e, f) =
        finished_lem
          (report_of sign iss iat lib receipts mandates authority_keys station_keys peers host
            station pass_id ev)
          (observation_of sign iss iat lib receipts mandates authority_keys station_keys peers host
            station pass_id ev)
          h in
      (
        subst (λ (x : AuditReport). (x.verdict ≡ "pass") ↔ Delivered host station ev) e
            (both (verdict_of_lem (passes (found host station ev)))
              (passes-Delivered host station ev)),
        subst (λ (x : Observation). (x.audit_failures ≡ 0) ↔ Delivered host station ev) f
            (both (failures-passes (found host station ev)) (passes-Delivered host station ev)),
      )
