-- ===== src/A2a/Dispatch.antt =====
-- What a request does to the agent: a2a/server.go.
use overpass.Prelude.{
  ◌≡◌, refl, ◌⊎◌, inl, inr, Bool, true, false, not, ◌&&◌, Option, none, some, List, [], ◌∷◌, String,
  if◌then◌else◌, Bool-cases, and_parts,
}
use overpass.Prelude.Text.{same, same_eq}
use overpass.Prelude.Maps.{get}
use overpass.Errs.{Result, ok, err}
use overpass.A2a.{
  absent, null_id, text_id, number_id, bad_id, known_id, plain, code_invalid_req, code_no_method,
  Part, RpcId, RpcRequest, Body, unreadable, batch, not_json, no_request, request, Sent, fails,
  responds, Server, declared, check_guards, guards_of, guarded, call_skill, selected, send_to, send,
  respond, handle_request, handle, serve, is_absent, valid_id, method_send_v1, method_send_v03,
  reported,
}

module _ {S : Type 0} (skill_of : String → String) (srv : Server S) where
  -- A state that a handler leaves, after its skill was found and its guards passed.
  pub Ran : String → String → S → S → Type 0
  Ran skill args s t =
      (declared skill_of srv skill ≡ true)
      × (check_guards skill_of srv (guards_of skill_of srv (get skill srv.guards)) args ≡ ok tt)
      × ((h : String → S → Result String × S) × (get skill srv.handlers ≡ some h)
          × (t ≡ (h args s).1))

  reported-state : (v03 : Bool) (r : Result String × S) → (reported skill_of srv v03 r).1 ≡ r.1
  reported-state v03 (err e, s) = refl
  reported-state v03 (ok out, s) = refl

  guarded-Ran :
      (v03 : Bool) (skill args : String) (s : S) (o : Option (String → S → Result String × S))
      (r : Result (Unit {0}))
      → declared skill_of srv skill ≡ true
      → get skill srv.handlers ≡ o
      → check_guards skill_of srv (guards_of skill_of srv (get skill srv.guards)) args ≡ r
      → ((guarded skill_of srv v03 args o r s).1 ≡ s)
        ⊎ Ran skill args s (guarded skill_of srv v03 args o r s).1
  unfolding Ran
  guarded-Ran v03 skill args s o (err e) known found checked = inl refl
  guarded-Ran v03 skill args s none (ok u) known found checked = inl refl
  guarded-Ran v03 skill args s (some h) (ok u) known found checked =
      inr (known, checked, (h, found, reported-state v03 (h args s)))

  -- A call of a skill leaves the state alone, or runs the skill's handler.
  call_skill-Ran :
      (v03 : Bool) (skill args : String) (s : S)
      → ((call_skill skill_of srv v03 skill args s).1 ≡ s)
        ⊎ Ran skill args s (call_skill skill_of srv v03 skill args s).1
  unfolding call_skill
  call_skill-Ran v03 skill args s = elim (Bool-cases (declared skill_of srv skill)) [
    | inl known ↦
        let checked =
          check_guards skill_of srv (guards_of skill_of srv (get skill srv.guards)) args in
        rw known (guarded-Ran v03 skill args s (get skill srv.handlers) checked known refl refl)
    | inr unknown ↦ rw unknown (inl refl)
  ]

  -- What `send` did: a part of the message, in its dialect, selected the skill.
  pub Selected : Bool → Option (List Part) → S → S → Type 0
  Selected v03 parts s t =
      (skill : String) × (args : String) × (ps : List Part) × (parts ≡ some ps)
      × (selected skill_of srv v03 ps ≡ some (skill, args))
      × Ran skill args s t

  send_to-Selected :
      (v03 : Bool) (ps : List Part) (s : S) (o : Option (String × String))
      → selected skill_of srv v03 ps ≡ o
      → ((send_to skill_of srv v03 o s).1 ≡ s)
        ⊎ Selected v03 (some ps) s (send_to skill_of srv v03 o s).1
  unfolding Selected
  send_to-Selected v03 ps s none e = inl refl
  send_to-Selected v03 ps s (some (skill, args)) e = elim (call_skill-Ran v03 skill args s) [
    | inl kept ↦ inl kept
    | inr ran ↦ inr (skill, args, ps, refl, e, ran)
  ]

  send-Selected :
      (v03 : Bool) (parts : Option (List Part)) (s : S)
      → ((send skill_of srv v03 parts s).1 ≡ s)
        ⊎ Selected v03 parts s (send skill_of srv v03 parts s).1
  unfolding send
  send-Selected v03 none s = inl refl
  send-Selected v03 (some []) s = inl refl
  send-Selected v03 (some (p ∷ ps)) s =
      send_to-Selected v03 (p ∷ ps) s (selected skill_of srv v03 (p ∷ ps)) refl

  -- A request that may act: of version 2.0, with a valid identifier, for a send method.
  pub IsSend : Bool → RpcRequest → Type 0
  IsSend v03 r =
      (r.jsonrpc ≡ "2.0")
      × (valid_id r.id ≡ true)
      × (r.method ≡ (if v03 then method_send_v03 else method_send_v1))

  pub Acted : RpcRequest → S → S → Type 0
  Acted r s t = (v03 : Bool) × IsSend v03 r × Selected v03 r.parts s t

  respond-state : (id : RpcId) (x : Sent × S) → (respond skill_of srv id x).1 ≡ x.1
  respond-state id (r, s) = refl

  sent-Acted :
      (v03 : Bool) (r : RpcRequest) (s : S)
      → IsSend v03 r
      → ((respond skill_of srv r.id (send skill_of srv v03 r.parts s)).1 ≡ s)
        ⊎ Acted r s (respond skill_of srv r.id (send skill_of srv v03 r.parts s)).1
  unfolding Acted
  sent-Acted v03 r s is_send = elim (send-Selected v03 r.parts s) [
    | inl kept ↦ inl kept
    | inr ran ↦ inr (v03, is_send, ran)
  ]

  handle_request-Acted :
      (r : RpcRequest) (s : S)
      → ((handle_request skill_of srv r s).1 ≡ s) ⊎ Acted r s (handle_request skill_of srv r s).1
  unfolding handle_request IsSend
  handle_request-Acted r s = elim (Bool-cases (same r.jsonrpc "2.0" && not (same r.method ""))) [
    | inr bad ↦ rw bad (inl refl)
    | inl good ↦ elim (Bool-cases (is_absent r.id)) [
      | inl no_id ↦ rw (good, no_id) (inl refl)
      | inr has_id ↦ elim (Bool-cases (valid_id r.id)) [
        | inr bad ↦ rw (good, has_id, bad) (inl refl)
        | inl valid ↦ elim (Bool-cases (same r.method method_send_v1)) [
          | inl v1 ↦
              rw (good, has_id, valid, v1)
                (sent-Acted false r s (version good, valid, same_eq r.method method_send_v1 v1))
          | inr no_v1 ↦ elim (Bool-cases (same r.method method_send_v03)) [
            | inl v03 ↦
                rw (good, has_id, valid, no_v1, v03)
                  (sent-Acted true r s (version good, valid, same_eq r.method method_send_v03 v03))
            | inr other ↦ rw (good, has_id, valid, no_v1, other) (inl refl)
          ]
        ]
      ]
    ]
  ]
    where
      version : (same r.jsonrpc "2.0" && not (same r.method "")) ≡ true → r.jsonrpc ≡ "2.0"
      version h = same_eq r.jsonrpc "2.0" (and_parts (same r.jsonrpc "2.0") _ h).0

  handle-Acted :
      (body : Body) (s : S)
      → ((handle skill_of srv body s).1 ≡ s)
        ⊎ ((r : RpcRequest) × (body ≡ request r) × Acted r s (handle skill_of srv body s).1)
  unfolding handle
  handle-Acted unreadable s = inl refl
  handle-Acted batch s = inl refl
  handle-Acted not_json s = inl refl
  handle-Acted (no_request id) s = inl refl
  handle-Acted (request r) s = elim (handle_request-Acted r s) [
    | inl kept ↦ inl kept
    | inr acted ↦ inr (r, refl, acted)
  ]

  -- Whatever is sent, the state stays as it was, or the request was a POST of a send request of
  -- version 2.0 with a valid identifier, one of whose data parts selects a declared skill, all
  -- guards of the skill let its arguments pass, and the state is the one that its handler leaves.
  pub serve-Acted :
      (method : String) (body : Body) (s : S)
      → ((serve skill_of srv method body s).1 ≡ s)
        ⊎ ((method ≡ "POST")
            × ((r : RpcRequest) × (body ≡ request r)
                × Acted r s (serve skill_of srv method body s).1))
  unfolding serve
  serve-Acted method body s = elim (Bool-cases (same method "POST")) [
    | inr other ↦ rw other (inl refl)
    | inl post ↦ rw post (elim (handle-Acted body s) [
      | inl kept ↦ inl kept
      | inr acted ↦ inr (same_eq method "POST" post, acted)
    ])
  ]

  respond-id : (id : RpcId) (x : Sent × S) → (respond skill_of srv id x).0 ≡ responds id x.0
  respond-id id (r, s) = refl

  valid-present : (id : RpcId) → valid_id id ≡ true → is_absent id ≡ false
  valid-present absent h = cc
  valid-present null_id h = refl
  valid-present (text_id s) h = refl
  valid-present (number_id n) h = refl
  valid-present bad_id h = refl

  -- A request with a valid identifier gets one response, under its own identifier, whether it is
  -- well formed or not.
  pub handle-answers :
      (r : RpcRequest) (s : S)
      → valid_id r.id ≡ true
      → (sent : Sent) × ((handle skill_of srv (request r) s).0 ≡ responds r.id sent)
  unfolding handle handle_request known_id
  handle-answers r s valid = elim (Bool-cases (same r.jsonrpc "2.0" && not (same r.method ""))) [
    | inr bad ↦ (fails (plain code_invalid_req), rw (bad, valid) refl)
    | inl good ↦
        let present = valid-present r.id valid in
        elim (Bool-cases (same r.method method_send_v1)) [
          | inl v1 ↦ (
            (send skill_of srv false r.parts s).0,
            rw (good, present, valid, v1) (respond-id r.id (send skill_of srv false r.parts s)),
          )
          | inr no_v1 ↦ elim (Bool-cases (same r.method method_send_v03)) [
            | inl v03 ↦ (
              (send skill_of srv true r.parts s).0,
              rw (good, present, valid, no_v1, v03)
                  (respond-id r.id (send skill_of srv true r.parts s)),
            )
            | inr other ↦
                (fails (plain code_no_method), rw (good, present, valid, no_v1, other) refl)
          ]
        ]
  ]
