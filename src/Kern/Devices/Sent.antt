-- ===== src/Kern/Devices/Sent.antt =====
-- What the serial line is sent, however long it is not ready.
use mathlib.Core.List.{append_assoc}
use sisotp.Base.{
  ℕ, Bool, false, if◌then◌else◌, zero, suc, ◌+◌, ◌%◌, ◌≤◌, ◌≡◌, ◌≢◌, ◌⊎◌, inl, inr, refl, sym, ◌∙◌,
  ap, List, [], ◌∷◌, ◌++◌, arith, ◌==◌, bit_and, All, Bool-cases,
}
use sisotp.Kern.Devices.{Access, out_byte, in_byte, Io, outb, inb}
use sisotp.Kern.Devices.Serial.{com1, delay, wait_ready, serial_send}

-- A read of the status at `port`, or of the port 0x84, of which the reads only take time.
abbrev pub IsInput : (port : ℕ) → Access → Type 0
IsInput port (in_byte q byte) = (q ≡ port) ⊎ (q ≡ 0x84)
IsInput port a = ⊥

-- How often `port` is read.
abbrev pub is_read : (port : ℕ) → Access → Bool
is_read port (in_byte q byte) = q == port
is_read port a = false

unfoldable pub polls : (port : ℕ) → List Access → ℕ
polls port [] = 0
polls port (a ∷ seen) = (if is_read port a then 1 else 0) + polls port seen

All-append :
    (port : ℕ) (xs ys : List Access)
    → All (IsInput port) xs
    → All (IsInput port) ys
    → All (IsInput port) (xs ++ ys)
All-append port [] ys a b = b
All-append port (x ∷ xs) ys (h, a) b = (h, All-append port xs ys a b)

polls-append :
    (port : ℕ) (xs ys : List Access) → polls port (xs ++ ys) ≡ polls port xs + polls port ys
unfolding polls
polls-append port [] ys = omega arith
polls-append port (x ∷ xs) ys = omega (arith, polls-append port xs ys)

-- The accesses of a wait: they only read the status and 0x84, the status at most once for each round
-- and once more, and the last of them read the status. It was ready, or was read that often.
pub record Waited (port mask rounds : ℕ) (seen : List Access) : Type 0 where
  pub inputs : All (IsInput port) seen
  pub count : polls port seen ≤ rounds + 1
  pub last :
      (byte : ℕ) × (rest : List Access) × (seen ≡ in_byte port byte ∷ rest)
      × ((bit_and byte mask ≢ 0) ⊎ (polls port seen ≡ rounds + 1))

-- What one round adds that found the device not ready.
longer :
    (port mask rounds : ℕ) (seen round : List Access)
    → All (IsInput port) round
    → polls port round ≡ 1
    → Waited port mask rounds seen
    → Waited port mask (suc rounds) (seen ++ round)
longer port mask rounds seen round i l w = record {
  inputs = All-append port seen round w.inputs i;
  count = omega (arith, polls-append port seen round, w.count);
  last =
      let (byte, rest, e, b) = w.last in
      (
        byte,
        rest ++ round,
        ap (λ r. r ++ round) e,
        elim b [ inl on ↦ inl on | inr full ↦ inr (omega (arith, polls-append port seen round)) ],
      );
}

wait_ready-Waited :
    (port mask rounds : ℕ) (s : Io)
    → port ≢ 0x84
    → (seen : List Access) × ((wait_ready port mask rounds s).1.trace ≡ seen ++ s.trace)
      × Waited port mask rounds seen
unfolding wait_ready inb delay polls
wait_ready-Waited port mask zero s other = (
  in_byte port (s.reads s.done % 256) ∷ [],
  refl,
  record {
    inputs = (inl refl, tt);
    count = ground arith;
    last = (s.reads s.done % 256, [], refl, inr (ground arith));
  },
)
wait_ready-Waited port mask (suc rounds) s other =
    elim (Bool-cases (bit_and (s.reads s.done % 256) mask == 0)) [
      | inl y ↦
          let s₅ : Io = (delay (inb port s).1).1 in
          let five : List Access =
            in_byte 0x84 (s.reads (suc (suc (suc (suc s.done)))) % 256)
            ∷ in_byte 0x84 (s.reads (suc (suc (suc s.done))) % 256)
            ∷ in_byte 0x84 (s.reads (suc (suc s.done)) % 256)
            ∷ in_byte 0x84 (s.reads (suc s.done) % 256)
            ∷ in_byte port (s.reads s.done % 256)
            ∷ [] in
          let (seen, e, w) = wait_ready-Waited port mask rounds s₅ other in
          rw y (
            seen ++ five,
            e ∙ sym (append_assoc seen five s.trace),
            longer port mask rounds seen five
                (inr refl, (inr refl, (inr refl, (inr refl, (inl refl, tt)))))
                (ground (arith, other)) w,
          )
      | inr n ↦ rw n (
        in_byte port (s.reads s.done % 256) ∷ [],
        refl,
        record {
          inputs = (inl refl, tt);
          count = ground arith;
          last = (s.reads s.done % 256, [], refl, inl (λ z. ground (arith, z)));
        },
      )
    ]

-- `serial_putc`, whatever the status register says: it ends, the last access sends the lowest byte
-- of the character, and nothing else is written. Before, it reads nothing but the status, at most
-- 12801 times, and the port of the delay. The last of these reads is one of the status, which says
-- that the line is ready, unless it was read 12801 times.
pub serial_send-sent :
    (c : ℕ) (s : Io)
    → (seen : List Access) × ((serial_send c s).1.trace
        ≡ out_byte com1 (c % 256) ∷ (seen ++ s.trace))
      × Waited (com1 + 5) 0x20 12800 seen
unfolding serial_send outb
serial_send-sent c s =
    let (seen, e, w) = wait_ready-Waited (com1 + 5) 0x20 12800 s (omega arith) in
    (seen, ap (λ t. out_byte com1 (c % 256) ∷ t) e, w)
