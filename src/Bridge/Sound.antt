-- ===== src/Bridge/Sound.antt =====
-- A ledger that is well formed, and the statements that keep it so.
use ephy_worker.Prelude.{
  ℕ, suc, ◌+◌, ◌≤◌, ◌<◌, ◌≡◌, subst, sym, Bool, Bool-cases, true, false, ◌&&◌, member, List, [],
  ◌∷◌, none, some, length, All, arith, inl, inr, if◌then◌else◌,
}
use ephy_worker.Prelude.Table.{
  find, count, update, delete, insert, All-update, All-delete, All-insert, All-map, Distinct,
  Distinct-insert, Distinct-update, Distinct-delete, count-insert, count-find,
}
use ephy_worker.Prelude.Counts.{count-update_le, count-delete_le, count_disjoint}
use ephy_worker.Bridge.Ledger.{InboxRow, is_pending, is_reserved, message_is}

-- Rows stand in the order of their sequence numbers, none of which is above the counter.
abbrev pub Ordered : List InboxRow → Type 0
Ordered [] = Unit
Ordered (r ∷ rs) = All (λ x. r.sequence < x.sequence) rs × Ordered rs

-- A finished row holds no text of its user any more.
abbrev pub IsCleared : InboxRow → Type 0
IsCleared r = r.finished ≡ true → (r.question ≡ "") × (r.previous ≡ none) × (r.context ≡ none)

pub record IsSound (has_repairs : Bool) (requests : List ℕ) (inbox : List InboxRow) (last : ℕ)
    : Type 0 where
  pub capacity : count is_pending inbox ≤ 128
  pub bounded : length requests ≤ 10000
  pub reserve : has_repairs ≡ false → length requests + count (is_reserved requests) inbox ≤ 10000
  pub single : Distinct (λ r. r.message) inbox
  pub ordered : Ordered inbox
  pub counted : All (λ r. r.sequence ≤ last) inbox
  pub cleared : All IsCleared inbox

Ordered-insert :
    (r : InboxRow) (rs : List InboxRow) (last : ℕ)
    → last < r.sequence
    → All (λ x. x.sequence ≤ last) rs
    → Ordered rs
    → Ordered (insert r rs)
unfolding insert
Ordered-insert r [] last h b k = (tt, tt)
Ordered-insert r (x ∷ rs) last h b k = (
  All-insert (λ y. x.sequence < y.sequence) r rs k.0 (omega (arith, b.0)),
  Ordered-insert r rs last h b.1 k.1,
)

Ordered-update :
    (q : InboxRow → Bool) (f : InboxRow → InboxRow) (rs : List InboxRow)
    → ((r : InboxRow) → (f r).sequence ≡ r.sequence)
    → Ordered rs
    → Ordered (update q f rs)
unfolding update
Ordered-update q f [] k h = tt
Ordered-update q f (r ∷ rs) k h =
    let same : (if q r then f r else r).sequence ≡ r.sequence = ground (arith, k r) in
    (
      All-update (λ x. (if q r then f r else r).sequence < x.sequence) q f rs
          (λ x _ e. omega (arith, e, k x))
          (All-map (λ x. r.sequence < x.sequence)
            (λ x. (if q r then f r else r).sequence < x.sequence) rs (λ x e. omega (arith, e, same))
            h.0),
      Ordered-update q f rs k h.1,
    )

Ordered-delete : (q : InboxRow → Bool) (rs : List InboxRow) → Ordered rs → Ordered (delete q rs)
unfolding delete
Ordered-delete q [] h = tt
Ordered-delete q (r ∷ rs) h = elim (Bool-cases (q r)) [
  | inl hit ↦ rw hit (Ordered-delete q rs h.1)
  | inr miss ↦ rw miss (All-delete (λ x. r.sequence < x.sequence) q rs h.0, Ordered-delete q rs h.1)
]

-- What an UPDATE of the inbox does not touch.
pub record IsGentle (q : InboxRow → Bool) (f : InboxRow → InboxRow) : Type 0 where
  pub message : (r : InboxRow) → (f r).message ≡ r.message
  pub sequence : (r : InboxRow) → (f r).sequence ≡ r.sequence
  pub finished : (r : InboxRow) → r.finished ≡ true → (f r).finished ≡ true
  pub cleared : (r : InboxRow) → q r ≡ true → IsCleared r → IsCleared (f r)

-- A pending row of a message without a request is reserved, and no longer so once the request is there.
pub request_of :
    (requests : List ℕ) (message : ℕ) (x : InboxRow)
    → member message requests ≡ false
    → (is_pending x && message_is message x) ≡ true
    → (is_reserved requests x ≡ true) × (is_reserved (message ∷ requests) x ≡ false)
request_of requests message x new e =
    let same : x.message ≡ message = ground arith in
    let new' : member x.message requests ≡ false =
      subst (λ m. member m requests ≡ false) (sym same) new in
    (ground (arith, new'), ground (arith, same))

module _ (has_repairs : Bool) (requests : List ℕ) (inbox : List InboxRow) (last : ℕ) where
  pub update-IsSound :
      (q : InboxRow → Bool) (f : InboxRow → InboxRow)
      → IsGentle q f
      → IsSound has_repairs requests inbox last
      → IsSound has_repairs requests (update q f inbox) last
  update-IsSound q f g s = record {
    capacity = omega (
      arith,
      s.capacity,
      count-update_le is_pending q f inbox (λ r _ e. ground (arith, g.finished r)),
    );
    bounded = s.bounded;
    reserve = λ alone. omega (
      arith,
      s.reserve alone,
      count-update_le (is_reserved requests) q f inbox
          (λ r _ e. ground (arith, g.finished r, g.message r)),
    );
    single = Distinct-update (λ r. r.message) q f inbox g.message s.single;
    ordered = Ordered-update q f inbox g.sequence s.ordered;
    counted =
        All-update (λ r. r.sequence ≤ last) q f inbox (λ r _ e. omega (arith, e, g.sequence r))
          s.counted;
    cleared = All-update IsCleared q f inbox g.cleared s.cleared;
  }

  pub delete-IsSound :
      (q : InboxRow → Bool)
      → IsSound has_repairs requests inbox last
      → IsSound has_repairs requests (delete q inbox) last
  delete-IsSound q s = record {
    capacity = omega (arith, s.capacity, count-delete_le is_pending q inbox);
    bounded = s.bounded;
    reserve =
        λ alone. omega (arith, s.reserve alone, count-delete_le (is_reserved requests) q inbox);
    single = Distinct-delete (λ r. r.message) q inbox s.single;
    ordered = Ordered-delete q inbox s.ordered;
    counted = All-delete (λ r. r.sequence ≤ last) q inbox s.counted;
    cleared = All-delete IsCleared q inbox s.cleared;
  }

  pub insert-IsSound :
      (r : InboxRow)
      → r.sequence ≡ suc last
      → r.finished ≡ false
      → find (message_is r.message) inbox ≡ none
      → member r.message requests ≡ false
      → count is_pending inbox < 128
      → length requests + count (is_reserved requests) inbox < 10000
      → IsSound has_repairs requests inbox last
      → IsSound has_repairs requests (insert r inbox) (suc last)
  insert-IsSound r seq unfinished new fresh room space s = record {
    capacity = ground (arith, count-insert is_pending r inbox);
    bounded = s.bounded;
    reserve = λ alone. ground (arith, space, count-insert (is_reserved requests) r inbox);
    single = Distinct-insert (λ x. x.message) r inbox s.single new;
    ordered = Ordered-insert r inbox last (omega (arith, seq)) s.counted s.ordered;
    counted =
        All-insert (λ x. x.sequence ≤ suc last) r inbox
          (All-map (λ x. x.sequence ≤ last) (λ x. x.sequence ≤ suc last) inbox
            (λ x e. omega (arith, e)) s.counted)
          (omega (arith, seq));
    cleared = All-insert IsCleared r inbox s.cleared (λ over. cc (unfinished, over));
  }

  -- A pending message without a request turns its reserve into the request.
  pub request-IsSound :
      (message : ℕ)
      → (has_repairs ≡ false
          → (r : InboxRow) × (find (λ x. is_pending x && message_is message x) inbox ≡ some r))
      → member message requests ≡ false
      → length requests < 10000
      → IsSound has_repairs requests inbox last
      → IsSound has_repairs (message ∷ requests) inbox last
  request-IsSound message there new room s =
      let pending_one : InboxRow → Bool = λ x. is_pending x && message_is message x in
      let fewer : count (is_reserved (message ∷ requests)) inbox + count pending_one inbox
          ≤ count (is_reserved requests) inbox =
        count_disjoint (is_reserved (message ∷ requests)) (is_reserved requests) pending_one inbox
          (λ x e. ground arith) (λ x e. request_of requests message x new e) in
      record {
        capacity = s.capacity;
        bounded = omega (arith, room);
        reserve = λ alone.
            let (r, e) = there alone in
            omega (arith, s.reserve alone, fewer, count-find pending_one inbox r e);
        single = s.single;
        ordered = s.ordered;
        counted = s.counted;
        cleared = s.cleared;
      }
