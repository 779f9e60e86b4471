-- ===== src/Collect/Allowance.antt =====
-- The limits of a budget hold whatever is asked of it.
use ephy_worker.Prelude.{
  ℕ, String, refl, subst, ◌+◌, ◌≤◌, ◌≡◌, ◌⊎◌, inl, inr, Bool-cases, true, false, List, [], ◌∷◌, any,
  str_eq, arith, ltb, ◌==◌,
}
use ephy_worker.Contract.Input.{JobQuery, Candidate}
use ephy_worker.Collect.Budget.{
  Budget, Category, category_eq, limit_of, Taken, allowed, exceeded, Reason, take, query, source,
  raise_count, remaining_seconds, then_mark, mark_query, mark_source,
}
use ephy_worker.Collect.Search.{
  Provider, Turn, SearchStage, Found, found, over_budget, search_failed, search_cancelled, Ended,
  returned, raised, interrupted, run_search_stage,
}

-- No count is above its limit.
abbrev pub IsWithin : Budget → Type 0
IsWithin b = (k : Category) → b.counts k ≤ limit_of b.limits k

-- What a request may give back.
abbrev pub AllTaken {ℓ} : {A : Type ℓ} → (A → Type 0) → Taken A → Type 0
AllTaken P (allowed a) = P a
AllTaken P (exceeded reason) = Unit

same_category : (k l : Category) → category_eq k l ≡ true → k ≡ l
unfolding category_eq
same_category Category.max_queries Category.max_queries h = refl
same_category Category.search_requests Category.search_requests h = refl
same_category Category.max_sources Category.max_sources h = refl
same_category Category.fetch_requests Category.fetch_requests h = refl
same_category Category.cache_bytes Category.cache_bytes h = refl
same_category _ _ h = cc h

pub raise-IsWithin :
    (category : Category) (amount : ℕ) (b : Budget)
    → IsWithin b
    → ltb (limit_of b.limits category) (b.counts category + amount) ≡ false
    → (k : Category) → raise_count category amount b.counts k ≤ limit_of b.limits k
unfolding raise_count
raise-IsWithin category amount b h room k = elim (Bool-cases (category_eq category k)) [
  | inl same ↦
      let it : category ≡ k = same_category category k same in
      rw same (subst (λ l. b.counts l + amount ≤ limit_of b.limits l) it (ground arith))
  | inr other ↦ rw other (h k)
]

pub take-IsWithin :
    (category : Category) (amount now : ℕ) (b : Budget)
    → IsWithin b
    → AllTaken IsWithin (take category amount now b)
unfolding take
take-IsWithin category amount now b h = elim (Bool-cases (remaining_seconds now b == 0)) [
  | inl over ↦ rw over tt
  | inr time ↦ elim (Bool-cases (ltb (limit_of b.limits category) (b.counts category + amount))) [
    | inl over ↦ rw (time, over) tt
    | inr room ↦ rw (time, room) (raise-IsWithin category amount b h room)
  ]
]

mark-IsWithin :
    (mark : Budget → Budget) (t : Taken Budget)
    → ((b : Budget) → IsWithin b → IsWithin (mark b))
    → AllTaken IsWithin t
    → AllTaken (λ answer. IsWithin answer.0) (then_mark mark t)
unfolding then_mark
mark-IsWithin mark (allowed b) keeps h = keeps b h
mark-IsWithin mark (exceeded reason) keeps h = tt

query-IsWithin :
    (key : String) (now : ℕ) (b : Budget)
    → IsWithin b
    → AllTaken (λ answer. IsWithin answer.0) (query key now b)
unfolding query mark_query
query-IsWithin key now b h = elim (Bool-cases (any (str_eq key) b.query_keys)) [
  | inl asked ↦ rw asked h
  | inr new ↦ rw new (
      mark-IsWithin (mark_query key) _ (λ b' h'. h') (take-IsWithin Category.max_queries 1 now b h))
]

pub source-IsWithin :
    (url : String) (now : ℕ) (b : Budget)
    → IsWithin b
    → AllTaken (λ answer. IsWithin answer.0) (source url now b)
unfolding source mark_source
source-IsWithin url now b h = elim (Bool-cases (any (str_eq url) b.source_keys)) [
  | inl asked ↦ rw asked h
  | inr new ↦ rw new (
      mark-IsWithin (mark_source url) _ (λ b' h'. h')
        (take-IsWithin Category.max_sources 1 now b h))
]

-- The budget of a stage that is over, however it ended.
abbrev pub budget_after : {R : Type 0} → Ended R → Budget
budget_after (returned r b) = b
budget_after (raised r b) = b
budget_after (interrupted r b) = b

pub Taken-cases {ℓ} :
    {A : Type ℓ} (t : Taken A)
    → ((a : A) × (t ≡ allowed a)) ⊎ ((reason : Reason) × (t ≡ exceeded reason))
Taken-cases (allowed a) = inl (a, refl)
Taken-cases (exceeded reason) = inr (reason, refl)

pub Found-cases :
    (f : Found)
    → (f ≡ over_budget)
      ⊎ (((cs : List Candidate) × (f ≡ found cs))
          ⊎ (((why : String) × (f ≡ search_failed why)) ⊎ (f ≡ search_cancelled)))
Found-cases over_budget = inl refl
Found-cases (found cs) = inr (inl (cs, refl))
Found-cases (search_failed why) = inr (inr (inl (why, refl)))
Found-cases search_cancelled = inr (inr (inr refl))

-- If the provider keeps the shared budget within its limits, as its calls of `take` do, then so does
-- the search stage: over any plan, at any times, and however it ends.
pub run_search_stage-IsWithin :
    (p : Provider) (turns : List Turn) (r : SearchStage) (b : Budget)
    → ((q : JobQuery) (b' : Budget) → IsWithin b' → IsWithin (p.search q b').0)
    → IsWithin b
    → IsWithin (budget_after (run_search_stage p turns r b))
unfolding run_search_stage
run_search_stage-IsWithin p [] r b keeps h = h
run_search_stage-IsWithin p (t ∷ ts) r b keeps h = elim (Bool-cases t.cancelled) [
  | inl stop ↦ rw stop h
  | inr go ↦ elim (Bool-cases (p.is_private t.item.text)) [
    | inl private ↦ rw (go, private) (run_search_stage-IsWithin p ts _ b keeps h)
    | inr public ↦ elim (Taken-cases (query (p.key t.item.text) t.now b)) [
      | inr refusal ↦ rw (go, public, refusal.1) h
      | inl grant ↦
          let h' : IsWithin grant.0.0 =
            subst (AllTaken (λ answer. IsWithin answer.0)) grant.1 (query-IsWithin _ t.now b h) in
          elim (Bool-cases grant.0.1) [
            | inr again ↦ rw (go, public, grant.1, again) h'
            | inl fresh ↦ elim (Found-cases (p.search t.item grant.0.0).1) [
              | inl out ↦ rw (go, public, grant.1, fresh, out) (keeps t.item grant.0.0 h')
              | inr (inl hit) ↦
                  rw (go, public, grant.1, fresh, hit.1)
                    (run_search_stage-IsWithin p ts _ _ keeps (keeps t.item grant.0.0 h'))
              | inr (inr (inr cut)) ↦
                  rw (go, public, grant.1, fresh, cut) (keeps t.item grant.0.0 h')
              | inr (inr (inl miss)) ↦
                  rw (go, public, grant.1, fresh, miss.1)
                    (run_search_stage-IsWithin p ts _ _ keeps (keeps t.item grant.0.0 h'))
            ]
          ]
    ]
  ]
]
