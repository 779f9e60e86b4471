-- ===== src/Bridge/Replies.antt =====
-- The answers that a reply can refer to: no more than 128, and only to their own user.
use Prim.Native.String.{String}
use ephy_worker.Prelude.{
  take, ℕ, zero, suc, ◌+◌, ◌≤◌, ◌<◌, ◌≡◌, refl, subst, sym, ap, ◌∙◌, Bool, Bool-cases, true, false,
  not, ◌&&◌, ◌==◌, ==_refl, ltb, List, [], ◌∷◌, Option, none, some, length, arith, inl, inr,
  if◌then◌else◌, any, All, sort,
}
use ephy_worker.Prelude.Table.{
  find, count, delete, insert, find-delete, find-insert-none, Distinct, Distinct-insert,
  Distinct-delete, All-delete, find-delete_self,
}
use ephy_worker.Prelude.Counts.{count_or, count-false}
use ephy_worker.Bridge.Writes.{
  Outcome-cases, after-enqueue, after-claim, after-claim_next, after-inbox_update, after-remember,
}
use ephy_worker.Bridge.Context.{Event, done, Context, community_context, bounded_text}
use ephy_worker.Bridge.Ledger.{Answer, Ledger}
use ephy_worker.Bridge.Ledger.{
  empty_ledger, open_ledger, add_row, hand_over, set_receipt, set_done, set_free,
}
use ephy_worker.Bridge.Machine.{
  Call, opens, enqueues, claims_next, updates, claims, remembers, perform, run,
}
use ephy_worker.Bridge.Answers.{
  same_guild, answer_seconds, is_reply_to, content_of, previous, new_answer, newer, newest,
  keep_newest, store_answer, remember,
}

-- An answer made after all others stands first.
sort_newest :
    (a : Answer) (xs : List Answer)
    → All (λ x. x.created < a.created) xs
    → sort newer (insert a xs) ≡ a ∷ sort newer xs
unfolding sort insert
sort_newest a [] h = refl
sort_newest a (x ∷ xs) h = ground (arith, h.0, sort_newest a xs h.1)

-- No row passes a test that each deleted row meets.
find-delete_all :
    {A : Type 0} (p q : A → Bool) (rs : List A)
    → ((r : A) → p r ≡ true → q r ≡ true)
    → find p (delete q rs) ≡ none
unfolding find delete
find-delete_all p q [] h = refl
find-delete_all p q (r ∷ rs) h = ground (arith, h r, find-delete_all p q rs h)

-- The answer that was stored last is the one that is found under its id.
find_kept :
    (a : Answer) (answers : List Answer) (event : Event) (later : ℕ)
    → All (λ x. x.created < a.created) answers
    → find
        (is_reply_to later event a.id)
        (keep_newest (insert a (delete (λ x. x.id == a.id) answers)))
      ≡ (if is_reply_to later event a.id a then some a else none)
unfolding keep_newest newest is_reply_to
find_kept a answers event later clock =
    let others = delete (λ x. x.id == a.id) answers in
    let first : newest (insert a others) ≡ a ∷ take 127 (sort newer others) = ap (take 128) (
      sort_newest a others
        (All-delete (λ x. x.created < a.created) (λ x. x.id == a.id) answers clock)) in
    find-delete (is_reply_to later event a.id)
      (λ r. not (any (λ x. x.id == r.id) (newest (insert a others)))) (insert a others)
      (λ r e. subst (λ ys. not (any (λ x. x.id == r.id) ys) ≡ false) (sym first) (ground arith))
    ∙ find-insert-none (is_reply_to later event a.id) a others (
        find-delete_all (is_reply_to later event a.id) (λ x. x.id == a.id) answers
          (λ r e. ground arith))

-- Whether an answer may be given to a reply, but for its id.
abbrev pub may_see : ℕ → Event → Event → ℕ → Bool
may_see now asked event later =
    same_guild asked.guild_id event.guild_id
    && asked.channel_id == event.channel_id
    && asked.user_id == event.user_id
    && ltb later (now + answer_seconds)

content_of_new :
    (answer_id : ℕ) (asked event : Event) (content : String) (context : Option Context)
    (now later : ℕ)
    → content_of (
        if is_reply_to later event answer_id (new_answer answer_id asked content context now)
        then some (new_answer answer_id asked content context now)
        else none)
      ≡ (if may_see now asked event later then some (bounded_text content 1200) else none)
unfolding content_of is_reply_to new_answer
content_of_new answer_id asked event content context now later = ground (arith, ==_refl answer_id)

-- Remembering and looking up. If the clock has moved on since the answers that are there, then after an
-- answer is remembered a reply to it finds its bounded text exactly if it comes from the same user in the
-- same guild and channel and less than a day later; any other reply to it finds nothing.
pub remember_then_previous :
    (answer_id : ℕ) (asked event : Event) (content : String) (given : Option Context)
    (now later : ℕ) (l l' : Ledger)
    → All (λ a. a.created < now) l.answers
    → remember answer_id asked content given now l ≡ done l'
    → event.reply_to ≡ some answer_id
    → previous later event l'
      ≡ (if may_see now asked event later then some (bounded_text content 1200) else none)
unfolding previous remember store_answer keep_newest
remember_then_previous answer_id asked event content given now later l l' clock e reply =
    elim (Outcome-cases (community_context given)) [
      | inr bad ↦ absurd (ground (arith, bad.1))
      | inl (context, good) ↦
          let a : Answer = new_answer answer_id asked content context now in
          let stored : store_answer a l ≡ l' = ground (arith, good) in
          rw (previous, reply)
            (subst
              (λ x. content_of (find (is_reply_to later event answer_id) x.answers) ≡ (
                if may_see now asked event later then some (bounded_text content 1200) else none))
              stored
              (ap content_of (find_kept a l.answers event later clock)
                ∙ content_of_new answer_id asked event content context now later))
    ]

length-take : {A : Type 0} (n : ℕ) (xs : List A) → length (take n xs) ≤ n
length-take zero xs = omega arith
length-take (suc n) [] = omega arith
length-take (suc n) (x ∷ xs) = omega (arith, length-take n xs)

length-delete :
    {A : Type 0} (q : A → Bool) (rs : List A) → length (delete (λ r. not (q r)) rs) ≡ count q rs
unfolding delete count
length-delete q [] = refl
length-delete q (r ∷ rs) = ground (arith, length-delete q rs)

count_apart :
    (id : ℕ) (rs : List Answer)
    → All (λ x. (x.id == id) ≡ false) rs
    → count (λ a. id == a.id) rs ≡ 0
unfolding count
count_apart id [] h = refl
count_apart id (r ∷ rs) h = ground (arith, h.0, count_apart id rs h.1)

count_one : (id : ℕ) (rs : List Answer) → Distinct (λ a. a.id) rs → count (λ a. id == a.id) rs ≤ 1
unfolding count
count_one id [] h = omega arith
count_one id (r ∷ rs) h = elim (Bool-cases (id == r.id)) [
  | inl hit ↦ let same : id ≡ r.id = ground arith in ground (arith, count_apart r.id rs h.0, same)
  | inr miss ↦ ground (arith, miss, count_one id rs h.1)
]

-- As many rows as ids at most, if no two rows have the same.
count_among :
    (ys rs : List Answer)
    → Distinct (λ a. a.id) rs
    → count (λ a. any (λ x. x.id == a.id) ys) rs ≤ length ys
count_among [] rs h = omega (arith, count-false rs)
count_among (y ∷ ys) rs h = omega (
  arith,
  count_one y.id rs h,
  count_among ys rs h,
  count_or (λ a. y.id == a.id) (λ a. any (λ x. x.id == a.id) ys) rs,
)

-- The answers are few, and each has an id of its own.
abbrev pub IsShort : Ledger → Type 0
IsShort l = (length l.answers ≤ 128) × Distinct (λ a. a.id) l.answers

store_answer-IsShort : (a : Answer) (l : Ledger) → IsShort l → IsShort (store_answer a l)
unfolding store_answer keep_newest newest
store_answer-IsShort a l h =
    let others = delete (λ x. x.id == a.id) l.answers in
    let apart : Distinct (λ x. x.id) (insert a others) =
      Distinct-insert (λ x. x.id) a others
        (Distinct-delete (λ x. x.id) (λ x. x.id == a.id) l.answers h.1)
        (find-delete_self (λ x. x.id == a.id) l.answers) in
    let kept = take 128 (sort newer (insert a others)) in
    (
      omega (
        arith,
        length-delete (λ r. any (λ x. x.id == r.id) kept) (insert a others),
        count_among kept (insert a others) apart,
        length-take 128 (sort newer (insert a others)),
      ),
      Distinct-delete (λ x. x.id) _ (insert a others) apart,
    )

perform-IsShort : (call : Call) (l : Ledger) → IsShort l → IsShort (perform call l)
unfolding perform open_ledger add_row hand_over set_receipt set_done set_free
perform-IsShort opens l h = h
perform-IsShort (enqueues event question previous intake consumer given) l h =
    after-enqueue IsShort event question previous intake consumer given l h (λ _ _ _. h)
perform-IsShort (claims_next alive consumer) l h =
    after-claim_next IsShort alive consumer l h (λ _. h)
perform-IsShort (updates message receipt finished release) l h =
    after-inbox_update IsShort message receipt finished release l h (λ _ k. k) (λ _ k. k) (λ _ k. k)
perform-IsShort (claims message) l h = after-claim IsShort message l h (λ _ _. h)
perform-IsShort (remembers answer_id event content given now) l h =
    after-remember IsShort answer_id event content given now l h
      (λ context. store_answer-IsShort (new_answer answer_id event content context now) l h)

run-IsShort : (calls : List Call) (l : Ledger) → IsShort l → IsShort (run calls l)
unfolding run
run-IsShort [] l h = h
run-IsShort (call ∷ calls) l h = run-IsShort calls (perform call l) (perform-IsShort call l h)

-- Whatever calls follow on an empty ledger, with any arguments, it holds no more than 128 answers, and no
-- two of them have the same id.
pub answers_bounded : (calls : List Call) → IsShort (run calls empty_ledger)
answers_bounded calls = run-IsShort calls empty_ledger (omega arith, tt)
