-- ===== src/Kern/Console/Ring.antt =====
-- jos/kern/console.c: the circular buffer as a queue of characters.
use mathlib.Core.List.{append_assoc, append-nil}
use sisotp.Base.{
  ℕ, zero, suc, ◌+◌, ◌-◌, ◌%◌, ◌<◌, ◌≡◌, ◌≢◌, refl, sym, ap, ◌∙◌, List, [], ◌∷◌, ◌++◌, true, false,
  arith, Bool-cases, ◌==◌, ==-eq_false, subst, inl, inr, if◌then◌else◌, update, length,
  length-append,
}
use sisotp.Kern.Console.{Cons, consbufsize, next_pos, put, cons_intr, cons_getc}

-- The `n` bytes of the buffer from `pos`, round the end of the array.
unfoldable pub read : (ℕ → ℕ) → (pos n : ℕ) → List ℕ
read buf pos zero = []
read buf pos (suc n) = buf (pos % consbufsize) ∷ read buf (pos + 1) n

unfoldable pub waiting : Cons → ℕ
waiting cons = (cons.wpos + consbufsize - cons.rpos) % consbufsize

-- The queue: the characters that were put and not yet fetched, the oldest first.
unfoldable pub contents : Cons → List ℕ
contents cons = read cons.buf cons.rpos (waiting cons)

-- What `cons_intr` keeps of the characters of a device.
unfoldable pub kept : List ℕ → List ℕ
kept [] = []
kept (c ∷ cs) = if c == 0 then kept cs else c % 256 ∷ kept cs

pub record IsRing (cons : Cons) : Type 0 where
  pub reads : cons.rpos < consbufsize
  pub writes : cons.wpos < consbufsize

read-cong :
    (buf : ℕ → ℕ) (n p q : ℕ) → p % consbufsize ≡ q % consbufsize → read buf p n ≡ read buf q n
unfolding read
read-cong buf zero p q e = refl
read-cong buf (suc n) p q e = rw (e, read-cong buf n (p + 1) (q + 1) (omega arith)) refl

read-update :
    (buf : ℕ → ℕ) (at x n pos : ℕ)
    → ((i : ℕ) → i < n → (pos + i) % consbufsize ≢ at)
    → read (update buf at x) pos n ≡ read buf pos n
unfolding read
read-update buf at x zero pos h = refl
read-update buf at x (suc n) pos h =
    let rest = read-update buf at x n (pos + 1) (λ i l. ground (arith, h (i + 1))) in
    rw rest (ground (arith, h 0))

read-last :
    (buf : ℕ → ℕ) (n pos : ℕ)
    → read buf pos (suc n) ≡ read buf pos n ++ (buf ((pos + n) % consbufsize) ∷ [])
unfolding read
read-last buf zero pos = ground arith
read-last buf (suc n) pos = rw (read-last buf n (pos + 1)) (ground arith)

length-read : (buf : ℕ → ℕ) (n pos : ℕ) → length (read buf pos n) ≡ n
unfolding read
length-read buf zero pos = refl
length-read buf (suc n) pos = ground (arith, length-read buf n (pos + 1))

-- One character more.
put-contents :
    (cons : Cons) (c : ℕ)
    → IsRing cons
    → suc (length (contents cons)) < consbufsize
    → (IsRing (put c cons)) × (contents (put c cons) ≡ contents cons ++ (c % 256 ∷ []))
unfolding contents waiting
put-contents cons c w h =
    let n = waiting cons in
    let room : suc n < consbufsize = ground (arith, length-read cons.buf n cons.rpos) in
    let more : waiting (put c cons) ≡ suc n = ground (arith, w.reads, w.writes) in
    let at : (cons.rpos + n) % consbufsize ≡ cons.wpos = ground (arith, w.reads, w.writes) in
    (
      record { reads = w.reads; writes = ground (arith, w.writes) },
      rw more (
          read-last (update cons.buf cons.wpos (c % 256)) n cons.rpos
          ∙ rw
              (
                at,
                read-update cons.buf cons.wpos (c % 256) n cons.rpos
                    (λ i l. λ e. absurd (omega (arith, at, room))),
              )
              (ground arith)),
    )

-- Whatever the devices deliver, as long as it fits, `cons_intr` ends and leaves the queue with the
-- characters that are not 0 at its end, in their order, and the positions inside the array.
pub cons_intr-contents :
    (cs : List ℕ) (cons : Cons)
    → IsRing cons
    → length (contents cons) + length (kept cs) < consbufsize
    → IsRing (cons_intr cs cons) × (contents (cons_intr cs cons) ≡ contents cons ++ kept cs)
unfolding cons_intr kept
cons_intr-contents [] cons w h = (w, sym (append-nil _))
cons_intr-contents (c ∷ cs) cons w h = elim (Bool-cases (c == 0)) [
  | inl e ↦ rw e (cons_intr-contents cs cons w (ground (arith, h)))
  | inr e ↦ rw e (
      let first = put-contents cons c w (ground (arith, h)) in
      let rest =
        cons_intr-contents cs (put c cons) first.0
          (rw (first.1, length-append (contents cons) (c % 256 ∷ [])) (ground (arith, h))) in
      (rest.0, rest.1 ∙ rw first.1 (append_assoc (contents cons) (c % 256 ∷ []) (kept cs))))
]

empty-positions : (cons : Cons) → IsRing cons → contents cons ≡ [] → (cons.rpos == cons.wpos) ≡ true
unfolding contents waiting
empty-positions cons w e =
    let none_waits : waiting cons ≡ 0 =
      sym (length-read cons.buf (waiting cons) cons.rpos) ∙ ap length e in
    ground (arith, none_waits, w.reads, w.writes)

-- The oldest character and what is left.
fetch-contents :
    (cons : Cons) (x : ℕ) (xs : List ℕ)
    → IsRing cons
    → contents cons ≡ x ∷ xs
    → ((cons.rpos == cons.wpos) ≡ false)
      × (cons.buf cons.rpos ≡ x)
      × (contents (record cons { rpos = next_pos cons.rpos }) ≡ xs)
unfolding contents waiting read
fetch-contents cons x xs w e =
    let n = length xs in
    let count : waiting cons ≡ suc n =
      sym (length-read cons.buf (waiting cons) cons.rpos) ∙ ap length e in
    let less : waiting (record cons { rpos = next_pos cons.rpos }) ≡ n =
      ground (arith, count, w.reads, w.writes) in
    let both : read cons.buf cons.rpos (suc n) ≡ x ∷ xs =
      subst (λ v. read cons.buf cons.rpos v ≡ x ∷ xs) count e in
    (
      ground (arith, count, w.reads, w.writes),
      ground (arith, both, w.reads),
      rw less (
          read-cong cons.buf n (next_pos cons.rpos) (cons.rpos + 1) (ground (arith, w.reads))
          ∙ ground (arith, both)),
    )

-- `cons_getc`, with room for what the devices have: if the queue is empty once they were polled, it
-- returns 0, changes nothing more, and the queue stays empty. Otherwise it returns the oldest
-- character, which leaves the queue.
pub cons_getc-contents :
    (serial keyboard : List ℕ) (cons : Cons) (x : ℕ) (xs : List ℕ)
    → IsRing cons
    → length (contents cons) + length (kept serial) + length (kept keyboard) < consbufsize
    → (contents cons ++ kept serial ++ kept keyboard ≡ []
        → (cons_getc serial keyboard cons ≡ (0, cons_intr keyboard (cons_intr serial cons)))
          × (contents (cons_getc serial keyboard cons).1 ≡ [])
          × IsRing (cons_getc serial keyboard cons).1)
      × (contents cons ++ kept serial ++ kept keyboard ≡ x ∷ xs
          → ((cons_getc serial keyboard cons).0 ≡ x)
            × (contents (cons_getc serial keyboard cons).1 ≡ xs)
            × IsRing (cons_getc serial keyboard cons).1)
unfolding cons_getc
cons_getc-contents serial keyboard cons x xs w h =
    let first = cons_intr-contents serial cons w (omega (arith, h)) in
    let second =
      cons_intr-contents keyboard (cons_intr serial cons) first.0
        (rw first.1 (rw (length-append (contents cons) (kept serial)) h)) in
    let polled = cons_intr keyboard (cons_intr serial cons) in
    let all : contents polled ≡ contents cons ++ kept serial ++ kept keyboard =
      second.1 ∙ rw first.1 refl in
    (
      λ e.
          let same : cons_getc serial keyboard cons ≡ (0, polled) =
            rw (empty-positions polled second.0 (all ∙ e)) refl in
          (same, rw same (all ∙ e), rw same second.0),
      λ e.
          let f = fetch-contents polled x xs second.0 (all ∙ e) in
          rw f.0
            (f.1, f.2, record { reads = ground (arith, second.0.reads); writes = second.0.writes }),
    )

-- There is no test for a full buffer: with 511 characters waiting, one more makes the buffer look
-- empty, and all are lost.
cons_intr-full :
    (c : ℕ) (cons : Cons)
    → IsRing cons
    → length (contents cons) + 1 ≡ consbufsize
    → c ≢ 0
    → contents (cons_intr (c ∷ []) cons) ≡ []
unfolding cons_intr contents waiting read
cons_intr-full c cons w h z =
    let n = waiting cons in
    let full : suc n ≡ consbufsize = ground (arith, length-read cons.buf n cons.rpos) in
    let none_left : waiting (put c cons) ≡ 0 = ground (arith, w.reads, w.writes) in
    rw (==-eq_false c 0 z, none_left) refl
