-- ===== src/Worker/Plan.antt =====
-- The report of a search that is stopped (worker_service.py, `_run_stage`), query by query.
use ephy_worker.Prelude.{
  suc, String, ◌≡◌, refl, sym, ap, subst, ◌∙◌, Bool-cases, true, inl, inr, List, [], ◌∷◌, ◌++◌, map,
  length, ◌⊎◌,
}
use ephy_worker.Contract.Input.{JobQuery, Candidate}
use ephy_worker.Contract.Result.{QueryStatus}
use ephy_worker.Collect.Budget.{Budget, query}
use ephy_worker.Collect.Search.{
  Provider, Turn, SearchStage, Ended, returned, raised, interrupted, run_search_stage, note_query,
  stop_search, add_found, new_search_stage, query_entry,
}
use ephy_worker.Collect.Allowance.{Taken-cases, Found-cases}
use ephy_worker.Worker.Leases.{Events}
use ephy_worker.Worker.Report.{pad, after_first, close_search}

abbrev pub asked_ids : List JobQuery → List String
asked_ids = map (λ q. q.query_id)

abbrev pub reported_ids : SearchStage → List String
reported_ids r = map (λ e. e.query_id) r.queries

abbrev pub stage_after : Ended SearchStage → SearchStage
stage_after (returned r b) = r
stage_after (raised r b) = r
stage_after (interrupted r b) = r

-- The stage has gone through a first part of the plan, and noted each query of it in order.
pub record IsProgress (plan : List JobQuery) (before : List String) (r : SearchStage) : Type 0 where
  pub done : List JobQuery
  pub rest : List JobQuery
  pub parts : plan ≡ done ++ rest
  pub noted : reported_ids r ≡ before ++ asked_ids done

append_assoc : {A : Type 0} (xs ys zs : List A) → (xs ++ ys) ++ zs ≡ xs ++ (ys ++ zs)
append_assoc [] ys zs = refl
append_assoc (x ∷ xs) ys zs = ap (λ l. x ∷ l) (append_assoc xs ys zs)

append_nil : {A : Type 0} (xs : List A) → xs ++ [] ≡ xs
append_nil [] = refl
append_nil (x ∷ xs) = ap (λ l. x ∷ l) (append_nil xs)

map-append : {A B : Type 0} (f : A → B) (xs ys : List A) → map f (xs ++ ys) ≡ map f xs ++ map f ys
map-append f [] ys = refl
map-append f (x ∷ xs) ys = ap (λ l. f x ∷ l) (map-append f xs ys)

length-map : {A B : Type 0} (f : A → B) (xs : List A) → length (map f xs) ≡ length xs
length-map f [] = refl
length-map f (x ∷ xs) = ap (λ n. suc n) (length-map f xs)

no-IsProgress : (plan : List JobQuery) (r : SearchStage) → IsProgress plan (reported_ids r) r
no-IsProgress plan r = record {
  done = [];
  rest = plan;
  parts = refl;
  noted = sym (append_nil (reported_ids r));
}

-- One query is noted, and the stage goes on from there.
more-IsProgress :
    (q : JobQuery) (qs : List JobQuery) (before : List String) (r r' : SearchStage)
    → reported_ids r ≡ before ++ (q.query_id ∷ [])
    → IsProgress qs (reported_ids r) r'
    → IsProgress (q ∷ qs) before r'
more-IsProgress q qs before r r' one p = record {
  done = q ∷ p.done;
  rest = p.rest;
  parts = ap (λ l. q ∷ l) p.parts;
  noted =
      p.noted
      ∙ ap (λ l. l ++ asked_ids p.done) one
      ∙ append_assoc before (q.query_id ∷ []) (asked_ids p.done);
}

note_query_lem :
    (q : JobQuery) (status : QueryStatus) (why : String) (r : SearchStage)
    → reported_ids (note_query q status why r) ≡ reported_ids r ++ (q.query_id ∷ [])
unfolding note_query query_entry
note_query_lem q status why r = map-append (λ e. e.query_id) r.queries _

stop_search_lem :
    (q : JobQuery) (why : String) (r : SearchStage)
    → reported_ids (stop_search q why r) ≡ reported_ids r ++ (q.query_id ∷ [])
unfolding stop_search note_query query_entry
stop_search_lem q why r = map-append (λ e. e.query_id) r.queries _

add_found_lem :
    (q : JobQuery) (cs : List Candidate) (r : SearchStage)
    → reported_ids (add_found q cs r) ≡ reported_ids r ++ (q.query_id ∷ [])
unfolding add_found query_entry
add_found_lem q cs r = map-append (λ e. e.query_id) r.queries _

run_search_stage-IsProgress :
    (p : Provider) (turns : List Turn) (r : SearchStage) (b : Budget)
    → IsProgress
        (map (λ t. t.item) turns)
        (reported_ids r)
        (stage_after (run_search_stage p turns r b))
unfolding run_search_stage
run_search_stage-IsProgress p [] r b = no-IsProgress [] r
run_search_stage-IsProgress p (t ∷ ts) r b = elim (Bool-cases t.cancelled) [
  | inl stop ↦ rw stop (no-IsProgress _ r)
  | inr go ↦ elim (Bool-cases (p.is_private t.item.text)) [
    | inl private ↦
        rw (go, private)
          (more-IsProgress t.item _ _
            (note_query t.item QueryStatus.failed "query_rejected_privacy" r) _
            (note_query_lem t.item QueryStatus.failed "query_rejected_privacy" r)
            (run_search_stage-IsProgress p ts _ b))
    | inr public ↦ elim (Taken-cases (query (p.key t.item.text) t.now b)) [
      | inr refusal ↦ rw (go, public, refusal.1) (no-IsProgress _ r)
      | inl grant ↦ elim (Bool-cases grant.0.1) [
        | inr again ↦
            rw (go, public, grant.1, again)
              (more-IsProgress t.item _ _ (stop_search t.item "max_queries" r) _
                (stop_search_lem t.item "max_queries" r) (no-IsProgress _ _))
        | inl fresh ↦ elim (Found-cases (p.search t.item grant.0.0).1) [
          | inl out ↦
              rw (go, public, grant.1, fresh, out)
                (more-IsProgress t.item _ _ (stop_search t.item "budget_exhausted" r) _
                  (stop_search_lem t.item "budget_exhausted" r) (no-IsProgress _ _))
          | inr (inl hit) ↦
              rw (go, public, grant.1, fresh, hit.1)
                (more-IsProgress t.item _ _ (add_found t.item hit.0 r) _
                  (add_found_lem t.item hit.0 r) (run_search_stage-IsProgress p ts _ _))
          | inr (inr (inr cut)) ↦ rw (go, public, grant.1, fresh, cut) (no-IsProgress _ r)
          | inr (inr (inl miss)) ↦
              rw (go, public, grant.1, fresh, miss.1)
                (more-IsProgress t.item _ _ (note_query t.item QueryStatus.failed miss.0 r) _
                  (note_query_lem t.item QueryStatus.failed miss.0 r)
                  (run_search_stage-IsProgress p ts _ _))
        ]
      ]
    ]
  ]
]

after_first_lem : (xs ys : List JobQuery) → after_first (length xs) (xs ++ ys) ≡ ys
unfolding after_first
after_first_lem [] ys = refl
after_first_lem (x ∷ xs) ys = after_first_lem xs ys

pad_lem :
    (why : String) (qs : List JobQuery) (s : SearchStage)
    → reported_ids (pad why qs s) ≡ reported_ids s ++ asked_ids qs
unfolding pad
pad_lem why [] s = sym (append_nil (reported_ids s))
pad_lem why (q ∷ qs) s =
    pad_lem why qs (note_query q QueryStatus.failed why s)
    ∙ ap (λ l. l ++ asked_ids qs) (note_query_lem q QueryStatus.failed why s)
    ∙ append_assoc (reported_ids s) (q.query_id ∷ []) (asked_ids qs)

pad_rest :
    (why : String) (plan : List JobQuery) (s : SearchStage)
    → IsProgress plan [] s
    → reported_ids (pad why (after_first (length s.queries) plan) s) ≡ asked_ids plan
pad_rest why plan s p =
    let many : length s.queries ≡ length p.done =
      sym (length-map (λ e. e.query_id) s.queries)
      ∙ ap length p.noted
      ∙ length-map (λ q. q.query_id) p.done in
    pad_lem why _ s
    ∙ rw (p.noted, many, p.parts, after_first_lem p.done p.rest)
        (sym (map-append (λ q. q.query_id) p.done p.rest))

-- The task of a search ends at any point of its plan: it comes back, or it is cancelled while its provider
-- works. If the job is cancelled or its lease lost, and the stage let no exception of its own through, then
-- the report has one entry for each query of the plan, in the plan's order: those that ran, and then those
-- that did not. Where `budget.query` raised, there is no report, and nothing is said.
pub close_search_covers :
    (p : Provider) (turns : List Turn) (b b' : Budget) (s : SearchStage) (e : Events)
    → (e.cancel ≡ true) ⊎ (e.lost ≡ true)
    → (run_search_stage p turns new_search_stage b ≡ returned s b')
      ⊎ (run_search_stage p turns new_search_stage b ≡ interrupted s b')
    → reported_ids (close_search e (map (λ t. t.item) turns) s)
      ≡ asked_ids (map (λ t. t.item) turns)
unfolding close_search
close_search_covers p turns b b' s e stopped ended =
    let same : stage_after (run_search_stage p turns new_search_stage b) ≡ s = elim ended [
      | inl h ↦ ap stage_after h
      | inr h ↦ ap stage_after h
    ] in
    let done : IsProgress (map (λ t. t.item) turns) [] s =
      subst (IsProgress (map (λ t. t.item) turns) []) same
        (unfold new_search_stage in run_search_stage-IsProgress p turns new_search_stage b) in
    elim (Bool-cases e.cancel) [
      | inl cancelled ↦ rw (close_search, cancelled) (pad_rest _ _ _ done)
      | inr kept ↦ elim (Bool-cases e.lost) [
        | inl lost ↦ rw (close_search, kept, lost) (pad_rest _ _ _ done)
        | inr held ↦ elim stopped [ inl h ↦ cc | inr h ↦ cc ]
      ]
    ]
