-- ===== src/User/Printf/Buffer.antt =====
-- jos/lib/printf.c: the pieces make up the whole output.
use sisotp.Base.{
  ℕ, zero, suc, ◌+◌, ◌%◌, ◌<◌, ◌≡◌, refl, sym, ap, subst, ◌∙◌, List, [], ◌∷◌, ◌++◌, inl, inr, arith,
  Bool-cases, ◌==◌, update, update_ne, length, ◌≢◌, All, ==-eq_false,
}
use mathlib.Core.List.{append_assoc, append-nil}
use sisotp.Libc.Strings.{Bytes}
use sisotp.Libc.Format.Args.{done}
use sisotp.Libc.Format.{vprintfmt}
use sisotp.User.Printf.{Printbuf, printed, putch, putch_all, vcprintf}

pub joined : List (List ℕ) → List ℕ
joined [] = []
joined (piece ∷ pieces) = piece ++ joined pieces

-- The arguments of `putch` as the bytes that are stored.
unfoldable pub bytes : List ℕ → List ℕ
bytes [] = []
bytes (ch ∷ out) = (ch % 256) ∷ bytes out

-- The bytes of a piece of memory.
unfoldable range : Bytes → (s len : ℕ) → List ℕ
range m s zero = []
range m s (suc len) = m s ∷ range m (s + 1) len

abbrev pub NonZero : ℕ → Type 0
NonZero c = c ≢ 0

printed-range :
    (n : ℕ) (m : Bytes) (s : ℕ) → All NonZero (range m s n) → printed m s n ≡ range m s n
unfolding printed range
printed-range zero m s a = refl
printed-range (suc n) m s a =
    rw (==-eq_false (m s) 0 a.0) (ap (λ l. m s ∷ l) (printed-range n m (s + 1) a.1))

All-append : (xs ys : List ℕ) → All NonZero xs → All NonZero ys → All NonZero (xs ++ ys)
All-append [] ys a b = b
All-append (x ∷ xs) ys a b = (a.0, All-append xs ys a.1 b)

range-update :
    (n : ℕ) (m : Bytes) (s a c : ℕ)
    → a ≡ s + n
    → range (update m a c) s (suc n) ≡ range m s n ++ (c ∷ [])
unfolding range
range-update zero m s a c e = ground arith
range-update (suc n) m s a c e =
    ap (λ (l : List ℕ). update m a c s ∷ l) (range-update n m (s + 1) a c (omega arith))
    ∙ ap (λ (h : ℕ). h ∷ (range m (s + 1) n ++ (c ∷ []))) (update_ne m a c (omega arith))

range_next :
    (n k : ℕ) (m : Bytes) (c : ℕ) → k ≡ suc n → range (update m n c) 0 k ≡ range m 0 n ++ (c ∷ [])
range_next n k m c e = rw e (range-update n m 0 n c (omega arith))

-- What a call of `putch` prints and leaves in the buffer is what was in the buffer, and its argument.
record Put (ch : ℕ) (b : Printbuf) (r : Printbuf × List ℕ) : Type 0 where
  text : r.1 ++ range r.0.buf 0 r.0.idx ≡ range b.buf 0 b.idx ++ (ch % 256 ∷ [])
  cnt : r.0.cnt ≡ b.cnt + 1
  clean : All NonZero (range r.0.buf 0 r.0.idx)
  room : r.0.idx < 255

putch-Put :
    (ch : ℕ) (b : Printbuf)
    → b.idx < 255
    → NonZero (ch % 256)
    → All NonZero (range b.buf 0 b.idx)
    → Put ch b (putch ch b)
unfolding putch
putch-Put ch b h z a =
    let next = range_next b.idx (b.idx + 1) b.buf (ch % 256) (omega arith) in
    let all : All NonZero (range (update b.buf b.idx (ch % 256)) 0 (b.idx + 1)) =
      subst (All NonZero) (sym next) (All-append (range b.buf 0 b.idx) (ch % 256 ∷ []) a (z, tt)) in
    elim (Bool-cases (b.idx + 1 == 255)) [
      | inl t ↦ rw t (record {
        text =
            unfold range in
            append-nil _ ∙ printed-range (b.idx + 1) (update b.buf b.idx (ch % 256)) 0 all ∙ next;
        cnt = refl;
        clean = unfold range in tt;
        room = omega arith;
      })
      | inr t ↦ rw t (record { text = next; cnt = refl; clean = all; room = ground arith })
    ]

record PutAll (out : List ℕ) (b : Printbuf) (r : Printbuf × List (List ℕ)) : Type 0 where
  text : joined r.1 ++ range r.0.buf 0 r.0.idx ≡ range b.buf 0 b.idx ++ bytes out
  cnt : r.0.cnt ≡ b.cnt + length out
  clean : All NonZero (range r.0.buf 0 r.0.idx)

putch_all-PutAll :
    (out : List ℕ) (b : Printbuf)
    → b.idx < 255
    → All NonZero (bytes out)
    → All NonZero (range b.buf 0 b.idx)
    → PutAll out b (putch_all out b)
unfolding putch_all joined bytes
putch_all-PutAll [] b h z a = record { text = sym (append-nil _); cnt = omega arith; clean = a }
putch_all-PutAll (ch ∷ out) b h z a =
    let p = putch-Put ch b h z.0 a in
    let q = putch_all-PutAll out (putch ch b).0 p.room z.1 p.clean in
    record {
      text =
          append_assoc (putch ch b).1 _ _
          ∙ ap (λ l. (putch ch b).1 ++ l) q.text
          ∙ sym (append_assoc (putch ch b).1 _ _)
          ∙ ap (λ l. l ++ bytes out) p.text
          ∙ append_assoc (range b.buf 0 b.idx) (ch % 256 ∷ []) (bytes out);
      cnt = omega (arith, p.cnt, q.cnt);
      clean = q.clean;
    }

joined-append : (xs : List (List ℕ)) (l : List ℕ) → joined (xs ++ (l ∷ [])) ≡ joined xs ++ l
unfolding joined
joined-append [] l = append-nil l
joined-append (x ∷ xs) l = ap (λ t. x ++ t) (joined-append xs l) ∙ sym (append_assoc x _ _)

-- If `vprintfmt` puts `out`, of which no byte is 0, then the pieces that `vcprintf` prints, put
-- together, are the bytes of `out`, and it returns their number, whatever the buffer holds before.
pub vcprintf-joined :
    (fuel : ℕ) (memory : Bytes) (fmt : ℕ) (ap_ out : List ℕ) (m : Bytes)
    → vprintfmt fuel memory fmt ap_ ≡ done out
    → All NonZero (bytes out)
    → (pieces : List (List ℕ)) × (vcprintf fuel memory fmt ap_ m ≡ done (length out, pieces))
      × (joined pieces ≡ bytes out)
unfolding vcprintf
vcprintf-joined fuel memory fmt ap_ out m e z =
    let b : Printbuf = record { idx = 0; cnt = 0; buf = m } in
    let q = putch_all-PutAll out b (omega arith) z (unfold range in tt) in
    let r = putch_all out b in
    let n : r.0.cnt ≡ length out = omega (arith, q.cnt) in
    (
      r.1 ++ (printed r.0.buf 0 r.0.idx ∷ []),
      rw (e, n) refl,
      joined-append r.1 _
          ∙ ap (λ l. joined r.1 ++ l) (printed-range r.0.idx r.0.buf 0 q.clean)
          ∙ q.text
          ∙ (unfold range in refl),
    )
