-- ===== src/Bpf.antt =====
-- bpf/bpf_demo.cpp: a socket filter, which the kernel runs on each packet, and the loop that prints the packets
-- let through. Packets are lists of bytes, from the IP header on.
pub mod Accepts
pub mod Shown
use Prim.Native.Nat.{bit_and}
use gittest.Prelude.{
  ℕ, zero, suc, ◌+◌, ◌*◌, ◌%◌, Bool, true, false, Option, none, some, List, [], ◌∷◌, ◌++◌, ◌==◌,
  ltb, leb, if◌then◌else◌, get_elem?, drop, take, length, map,
}
use gittest.Prelude.Partial.{◌>>=◌}

-- `struct sock_filter`
pub record SockFilter : Type 0 where
  pub opcode : ℕ
  pub jt : ℕ
  pub jf : ℕ
  pub k : ℕ

abbrev instr : ℕ → ℕ → ℕ → ℕ → SockFilter
instr opcode jt jf k = record { opcode = opcode; jt = jt; jf = jf; k = k }

abbrev pub code_tcp : List SockFilter
code_tcp =
    instr 0x30 0 0 0x9
    ∷ instr 0x15 0 7 0x6
    ∷ instr 0x28 0 0 0x6
    ∷ instr 0x45 5 0 0x1fff
    ∷ instr 0xb1 0 0 0x0
    ∷ instr 0x48 0 0 0x2
    ∷ instr 0x35 0 2 0x64
    ∷ instr 0x25 1 0 0xc8
    ∷ instr 0x6 0 0 0x40000
    ∷ instr 0x6 0 0 0x0
    ∷ []

-- Two bytes in network order.
abbrev pub load_half : List ℕ → ℕ → Option ℕ
load_half packet i = do hi ← get_elem? packet i; lo ← get_elem? packet (i + 1); some (hi * 256 + lo)

-- What an instruction does: the two registers and how many instructions are passed over, or the result.
data Next : Type 0 where
  goes : ℕ → ℕ → ℕ → Next
  returns : ℕ → Next

-- A load outside the packet ends the filter with 0.
abbrev loaded : Option ℕ → (ℕ → Next) → Next
loaded none f = returns 0
loaded (some v) f = f v

-- The instructions that the program uses: a byte, a half word, a half word behind the register X, the length
-- of the IP header into X, the four jumps, and the end. The kernel refuses a program with any other opcode.
exec : SockFilter → List ℕ → ℕ → ℕ → Next
exec i packet a x =
    if i.opcode == 0x30
    then loaded (get_elem? packet i.k) (λ v. goes v x 0)
    else if i.opcode == 0x28
    then loaded (load_half packet i.k) (λ v. goes v x 0)
    else if i.opcode == 0x48
    then loaded (load_half packet (x + i.k)) (λ v. goes v x 0)
    else if i.opcode == 0xb1
    then loaded (get_elem? packet i.k) (λ v. goes a (4 * bit_and v 0xf) 0)
    else if i.opcode == 0x15
    then goes a x (if a == i.k then i.jt else i.jf)
    else if i.opcode == 0x45
    then goes a x (if bit_and a i.k == 0 then i.jf else i.jt)
    else if i.opcode == 0x35
    then goes a x (if leb i.k a then i.jt else i.jf)
    else if i.opcode == 0x25
    then goes a x (if ltb i.k a then i.jt else i.jf)
    else returns i.k

-- The program from here on, with a step of fuel for each instruction; `none` is an end without a result.
run : ℕ → List SockFilter → List ℕ → ℕ → ℕ → Option ℕ
unfolding exec
run zero program packet a x = none
run (suc n) [] packet a x = none
run (suc n) (i ∷ program) packet a x = elim (exec i packet a x) [
  | returns r ↦ some r
  | goes a' x' skip ↦ run n (drop skip program) packet a' x'
]

-- How many bytes of the packet are let through: 0 drops it. No jump goes back.
pub filter : List ℕ → Option ℕ
unfolding run
filter packet = run (length code_tcp) code_tcp packet 0 0

-- What is printed: a byte in hexadecimal, the end of the line, a destination port.
pub data Line : Type 0 where
  byte : ℕ → Line
  newline : Line
  tcp_port : ℕ → Line
  udp_port : ℕ → Line

-- `dest`, the second half word of both headers; `ip->ihl << 2` bytes are in front of them. `none` is a read
-- behind the buffer.
abbrev pub dest : List ℕ → Option ℕ
dest packet_buf = do b ← get_elem? packet_buf 0; load_half packet_buf (4 * (b % 16) + 2)

-- `switch (ip->protocol)`
pub ports : List ℕ → Option (List Line)
ports packet_buf = do
  protocol ← get_elem? packet_buf 9
  if protocol == 6
      then (do port ← dest packet_buf; some (tcp_port port ∷ []))
      else (if protocol == 17
          then (do port ← dest packet_buf; some (udp_port port ∷ []))
          else some [])

-- A round of the loop of `main`: what it prints, and its buffer of 2000 bytes, over whose beginning
-- `recvfrom` writes.
pub round : List ℕ → List ℕ → Option (List Line × List ℕ)
unfolding ports
round packet packet_buf = do
  let received = take 2000 packet
  let after = received ++ drop (length received) packet_buf
  ls ← ports after
  some (map byte received ++ newline ∷ ls, after)
