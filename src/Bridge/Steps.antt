-- ===== src/Bridge/Steps.antt =====
-- The steps of the bridge keep that each question went to the gateway once, behind its claim.
use Prim.Native.String.{String}
use ephy_worker.Prelude.{
  ℕ, ◌≡◌, refl, subst, Bool, Bool-cases, Option-cases, true, false, ◌==◌, ==_refl, leb, length,
  member, any, All, List, [], ◌∷◌, Option, none, some, is_some, arith, inl, inr,
}
use ephy_worker.Contract.Input.{distinct_numbers}
use ephy_worker.Bridge.Context.{Event, done, Context, community_context}
use ephy_worker.Bridge.Ledger.{Ledger, InboxRow, claim}
use ephy_worker.Bridge.Answers.{remember}
use ephy_worker.Bridge.Machine.{or_old, perform, remembers}
use ephy_worker.Bridge.Writes.{Outcome-cases}
use ephy_worker.Bridge.Once.{Keeps, perform-Keeps}
use ephy_worker.Repair.Rows.{Intake}
use ephy_worker.Bridge.Desk.{
  Settings, is_guild, Desk, Act, go_on, leave, raised, ◌>>=◌, Reply, got, lost, Part, Visit, await,
  set_ledger, claim_request, ask_gateway, community_route, check_public, remember_part, send_parts,
  ask_with, ask_claimed, ask_if, ask_row, ask_intake,
}

-- Each question that went to the gateway went once, and is on record as a request.
pub record IsOnce (d : Desk) : Type 0 where
  pub distinct : distinct_numbers d.asked ≡ true
  pub recorded : All (λ m. member m d.ledger.requests ≡ true) d.asked

-- The message is claimed, and its question has not gone to the gateway.
pub record IsFresh (message : ℕ) (d : Desk) : Type 0 where
  pub once : IsOnce d
  pub claimed : member message d.ledger.requests ≡ true
  pub unasked : member message d.asked ≡ false

-- What holds of a step's desk, however it ends.
abbrev pub AllActs : {A : Type 0} → (Desk → A → Type 0) → Act A → Type 0
AllActs P (go_on d a) = P d a
AllActs P (leave d) = IsOnce d
AllActs P (raised d why) = IsOnce d

pub AllActs-bind :
    {A B : Type 0} (P : Desk → A → Type 0) (Q : Desk → B → Type 0) (act : Act A)
    (next : Desk → A → Act B)
    → AllActs P act
    → ((d : Desk) (a : A) → P d a → AllActs Q (next d a))
    → AllActs Q (act >>= next)
AllActs-bind P Q (go_on d a) next h k = k d a h
AllActs-bind P Q (leave d) next h k = h
AllActs-bind P Q (raised d why) next h k = h

recorded_still :
    (asked : List ℕ) (l l' : Ledger)
    → ((message : ℕ) → Keeps message l l')
    → All (λ m. member m l.requests ≡ true) asked
    → All (λ m. member m l'.requests ≡ true) asked
recorded_still [] l l' keeps h = tt
recorded_still (m ∷ ms) l l' keeps h = (keeps m h.0, recorded_still ms l l' keeps h.1)

-- A message without a request has not gone to the gateway.
unasked_new :
    (message : ℕ) (asked requests : List ℕ)
    → All (λ m. member m requests ≡ true) asked
    → member message requests ≡ false
    → member message asked ≡ false
unasked_new message [] requests h new = refl
unasked_new message (m ∷ ms) requests h new = elim (Bool-cases (m == message)) [
  | inl same ↦
      let e : m ≡ message = ground arith in
      absurd (cc (new, subst (λ x. member x requests ≡ true) e h.0))
  | inr differ ↦ ground (arith, differ, unasked_new message ms requests h.1 new)
]

-- A new ledger that forgets no request, and a new store.
pub ledger-IsOnce :
    (d : Desk) (l : Ledger)
    → ((message : ℕ) → Keeps message d.ledger l)
    → IsOnce d
    → IsOnce (set_ledger l d)
unfolding set_ledger
ledger-IsOnce d l keeps h = record {
  distinct = h.distinct;
  recorded = recorded_still d.asked d.ledger l keeps h.recorded;
}

-- Steps that leave the desk as it is.
module _ (P : Desk → Type 0) (once : (d : Desk) → P d → IsOnce d) where
  pub await-AllActs :
      {A : Type 0} (r : Reply A) (d : Desk) → P d → AllActs (λ d' _. P d') (await r d)
  unfolding await
  await-AllActs (got a) d h = h
  await-AllActs (lost why) d h = once d h

  pub community_route-AllActs :
      (s : Settings) (intent : Option Context) (guild_id : Option ℕ) (given : Option Context)
      (d : Desk)
      → P d
      → AllActs (λ d' _. P d') (community_route s intent guild_id given d)
  unfolding community_route
  community_route-AllActs s intent guild_id given d h =
      elim (Outcome-cases (community_context given)) [
        | inr bad ↦ rw (community_route, bad.1) (once d h)
        | inl (stored, e) ↦
            elim (Bool-cases (any (λ g. is_guild g guild_id) s.community_guild_ids)) [
              | inl on ↦ rw (community_route, e, on) h
              | inr off ↦ elim (Bool-cases (is_some stored)) [
                | inl kept ↦ rw (community_route, e, off, kept) (once d h)
                | inr fresh ↦ rw (community_route, e, off, fresh) h
              ]
            ]
      ]

  pub check_public-AllActs :
      (v : Visit) (context : Option Context) (d : Desk)
      → P d
      → AllActs (λ d' _. P d') (check_public v context d)
  unfolding check_public
  check_public-AllActs v (some c) d h = h
  check_public-AllActs v none d h = elim (Bool-cases v.is_public) [
    | inl open' ↦ rw (check_public, open') h
    | inr closed' ↦ rw (check_public, closed') (once d h)
  ]

-- What a claim gives, by its answer.
abbrev pub Claimed : ℕ → Desk → Bool → Type 0
Claimed message d true = IsFresh message d
Claimed message d false = IsOnce d

pub claim_request-AllActs :
    (message : ℕ) (d : Desk) → IsOnce d → AllActs (Claimed message) (claim_request message d)
unfolding claim_request claim set_ledger
claim_request-AllActs message d h = elim (Bool-cases (member message d.ledger.requests)) [
  | inl again ↦ rw (claim_request, again) (record { distinct = h.distinct; recorded = h.recorded })
  | inr new ↦ elim (Bool-cases (leb 10000 (length d.ledger.requests))) [
    | inl full ↦ rw (claim_request, new, full) h
    | inr room ↦
        rw (claim_request, new, room)
          (record {
            once = record {
              distinct = h.distinct;
              recorded =
                  recorded_still d.asked d.ledger
                    (record d.ledger { requests = message ∷ d.ledger.requests })
                    (λ m e. ground (arith, e)) h.recorded;
            };
            claimed = ground (arith, ==_refl message);
            unasked = unasked_new message d.asked d.ledger.requests h.recorded new;
          })
  ]
]

pub ask_gateway-AllActs :
    (v : Visit) (message : ℕ) (d : Desk)
    → IsFresh message d
    → AllActs (λ d' _. IsOnce d') (ask_gateway v message d)
unfolding ask_gateway distinct_numbers
ask_gateway-AllActs v message d h =
    await-AllActs IsOnce (λ d' k. k) v.gateway (record d { asked = message ∷ d.asked })
      (record {
        distinct = ground (arith, h.unasked, h.once.distinct);
        recorded = (h.claimed, h.once.recorded);
      })

remember-Keeps :
    (answer_id : ℕ) (event : Event) (text : String) (context : Option Context) (now : ℕ)
    (l l' : Ledger)
    → remember answer_id event text context now l ≡ done l'
    → (message : ℕ) → Keeps message l l'
unfolding perform
remember-Keeps answer_id event text context now l l' e message =
    subst (λ o. Keeps message l (or_old l o)) e
      (perform-Keeps message (remembers answer_id event text context now) l)

remember_part-AllActs :
    (event : Event) (context : Option Context) (now : ℕ) (p : Part) (d : Desk)
    → IsOnce d
    → AllActs (λ d' _. IsOnce d') (remember_part event context now p d)
unfolding remember_part
remember_part-AllActs event context now p d h = elim (Option-cases p.answer_id) [
  | inl unknown ↦ rw (remember_part, unknown) h
  | inr (id, e) ↦ elim (Outcome-cases (remember id event p.text context now d.ledger)) [
    | inr bad ↦ rw (remember_part, e, bad.1) h
    | inl (l, stored) ↦
        rw (remember_part, e, stored)
          (ledger-IsOnce d l (remember-Keeps id event p.text context now d.ledger l stored) h)
  ]
]

pub send_parts-AllActs :
    (v : Visit) (event : Event) (context : Option Context) (ps : List Part) (d : Desk)
    → IsOnce d
    → AllActs (λ d' _. IsOnce d') (send_parts v event context ps d)
unfolding send_parts
send_parts-AllActs v event context [] d h = await-AllActs IsOnce (λ d' k. k) v.delivery d h
send_parts-AllActs v event context (p ∷ ps) d h =
    AllActs-bind (λ d' _. IsOnce d') (λ d' _. IsOnce d') (remember_part event context v.now p d)
      (λ d' _. send_parts v event context ps d') (remember_part-AllActs event context v.now p d h)
      (λ d' _ k. send_parts-AllActs v event context ps d' k)

ask_with-AllActs :
    (v : Visit) (message : ℕ) (context : Option Context) (d : Desk)
    → IsFresh message d
    → AllActs (λ d' _. IsOnce d') (ask_with v message context d)
unfolding ask_with
ask_with-AllActs v message context d h =
    AllActs-bind (λ d' _. IsOnce d') (λ d' _. IsOnce d') (ask_gateway v message d)
      (λ d' parts. go_on d' (some (context, parts))) (ask_gateway-AllActs v message d h)
      (λ d' _ k. k)

fresh-IsOnce : (message : ℕ) (d : Desk) → IsFresh message d → IsOnce d
fresh-IsOnce message d h = h.once

ask_claimed-AllActs :
    (s : Settings) (v : Visit) (r : InboxRow) (d : Desk) (fresh : Bool)
    → Claimed r.message d fresh
    → AllActs (λ d' _. IsOnce d') (ask_claimed s v r d fresh)
unfolding ask_claimed
ask_claimed-AllActs s v r d false h = h
ask_claimed-AllActs s v r d true h =
    AllActs-bind (λ d' _. IsFresh r.message d') (λ d' _. IsOnce d')
      (community_route s v.intent r.guild r.context d)
      (λ d1 context. check_public v context d1 >>= λ d2 _. ask_with v r.message context d2)
      (community_route-AllActs (IsFresh r.message) (fresh-IsOnce r.message) s v.intent r.guild
        r.context d h)
      (λ d1 context k.
        AllActs-bind (λ d' _. IsFresh r.message d') (λ d' _. IsOnce d') (check_public v context d1)
          (λ d2 _. ask_with v r.message context d2)
          (check_public-AllActs (IsFresh r.message) (fresh-IsOnce r.message) v context d1 k)
          (λ d2 _ k'. ask_with-AllActs v r.message context d2 k'))

pub ask_row-AllActs :
    (s : Settings) (v : Visit) (r : InboxRow) (d : Desk)
    → IsOnce d
    → AllActs (λ d' _. IsOnce d') (ask_row s v r d)
unfolding ask_row
ask_row-AllActs s v r d h =
    AllActs-bind (Claimed r.message) (λ d' _. IsOnce d') (claim_request r.message d)
      (λ d1 fresh. ask_claimed s v r d1 fresh) (claim_request-AllActs r.message d h)
      (λ d1 fresh k. ask_claimed-AllActs s v r d1 fresh k)

ask_if-AllActs :
    (v : Visit) (message : ℕ) (context : Option Context) (d : Desk) (fresh : Bool)
    → Claimed message d fresh
    → AllActs (λ d' _. IsOnce d') (ask_if v message context d fresh)
unfolding ask_if
ask_if-AllActs v message context d false h = h
ask_if-AllActs v message context d true h = ask_with-AllActs v message context d h

pub ask_intake-AllActs :
    (s : Settings) (v : Visit) (i : Intake) (d : Desk)
    → IsOnce d
    → AllActs (λ d' _. IsOnce d') (ask_intake s v i d)
unfolding ask_intake
ask_intake-AllActs s v i d h =
    AllActs-bind (λ d' _. IsOnce d') (λ d' _. IsOnce d')
      (community_route s v.intent (some i.guild) i.context d)
      (λ d1 context. check_public v context d1 >>= λ d2 _.
        claim_request i.message d2 >>= λ d3 fresh. ask_if v i.message context d3 fresh)
      (community_route-AllActs IsOnce (λ d' k. k) s v.intent (some i.guild) i.context d h)
      (λ d1 context k.
        AllActs-bind (λ d' _. IsOnce d') (λ d' _. IsOnce d') (check_public v context d1)
          (λ d2 _. claim_request i.message d2 >>= λ d3 fresh. ask_if v i.message context d3 fresh)
          (check_public-AllActs IsOnce (λ d' k'. k') v context d1 k)
          (λ d2 _ k'.
            AllActs-bind (Claimed i.message) (λ d' _. IsOnce d') (claim_request i.message d2)
              (λ d3 fresh. ask_if v i.message context d3 fresh)
              (claim_request-AllActs i.message d2 k')
              (λ d3 fresh k''. ask_if-AllActs v i.message context d3 fresh k'')))
