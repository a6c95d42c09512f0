-- ===== src/Bpf/Shown.antt =====
-- What `main` of bpf/bpf_demo.cpp prints of a packet that its filter lets through.
use gittest.Prelude.{
  ℕ, zero, suc, ◌+◌, ◌*◌, ◌%◌, ◌<◌, ◌≤◌, ◌≡◌, ◌≢◌, ◌∙◌, refl, ap, inl, inr, Bool, true, false, ◌&&◌,
  Option, none, some, List, [], ◌∷◌, ◌++◌, ◌==◌, leb, get_elem?, take, drop, map, length, arith,
  Bool-cases, Option-cases, leb→le, ==_iff,
}
use gittest.Bpf.{load_half, filter, byte, newline, tcp_port, dest, ports, round}
use gittest.Bpf.Accepts.{holds, passes, port_within, filter_lem}

-- What stands in the packet stands in the buffer.
received-get_elem? :
    (n : ℕ) (packet rest : List ℕ) (i v : ℕ)
    → i < n
    → get_elem? packet i ≡ some v
    → get_elem? (take n packet ++ rest) i ≡ some v
received-get_elem? zero packet rest i v l e = absurd (omega (arith, l))
received-get_elem? (suc n) [] rest i v l e = cc
received-get_elem? (suc n) (b ∷ packet) rest zero v l e = e
received-get_elem? (suc n) (b ∷ packet) rest (suc i) v l e =
    received-get_elem? n packet rest i v (omega (arith, l)) e

received-load_half :
    (packet rest : List ℕ) (i v : ℕ)
    → i < 1000
    → load_half packet i ≡ some v
    → load_half (take 2000 packet ++ rest) i ≡ some v
received-load_half packet rest i v l e = elim (Option-cases (get_elem? packet i)) [
  | inl n ↦ absurd (let f = rw n at e in cc)
  | inr (hi, h) ↦ elim (Option-cases (get_elem? packet (i + 1))) [
    | inl n ↦ absurd (let f = rw h at e in let g = rw n at f in cc)
    | inr (lo, k) ↦
        let f = rw h at e in
        let g = rw k at f in
        let p = received-get_elem? 2000 packet rest i hi (omega (arith, l)) h in
        let q = received-get_elem? 2000 packet rest (i + 1) lo (omega (arith, l)) k in rw p (rw q g)
  ]
]

holds-inv : (o : Option ℕ) (f : ℕ → Bool) → holds o f ≡ true → (v : ℕ) × (o ≡ some v) × (f v ≡ true)
holds-inv none f h = cc
holds-inv (some v) f h = (v, refl, h)

both : (a b : Bool) → (a && b) ≡ true → (a ≡ true) × (b ≡ true)
both true b h = (refl, h)
both false b h = cc

passes_lem : (packet : List ℕ) (n : ℕ) → filter packet ≡ some n → n ≢ 0 → passes packet ≡ true
passes_lem packet n e ne = elim (Bool-cases (passes packet)) [
  | inl is ↦ is
  | inr isnt ↦ absurd (let f = filter_lem packet in let g = rw isnt at f in ne cc)
]

-- The facts that the filter looks at.
passes_parts :
    (packet : List ℕ)
    → passes packet ≡ true
    → (b : ℕ) × (port : ℕ) × (get_elem? packet 9 ≡ some 6)
      × (get_elem? packet 0 ≡ some b)
      × (load_half packet (4 * (b % 16) + 2) ≡ some port)
      × (100 ≤ port)
      × (port ≤ 200)
passes_parts packet h =
    let first = holds (get_elem? packet 9) (λ p. p == 6) in
    let second = holds (load_half packet 6) (λ f. f % 8192 == 0) in
    let (two, within) = both (first && second) (port_within packet) h in
    let (tcp, _) = both first second two in
    let (protocol, e, six) = holds-inv (get_elem? packet 9) (λ p. p == 6) tcp in
    let is : protocol ≡ 6 = (==_iff protocol 6).0 six in
    let (b, f, in_port) =
      holds-inv (get_elem? packet 0)
        (λ b. holds (load_half packet (4 * (b % 16) + 2)) λ port. leb 100 port && leb port 200)
        within in
    let (port, g, range) =
      holds-inv (load_half packet (4 * (b % 16) + 2)) (λ port. leb 100 port && leb port 200)
        in_port in
    let (low, high) = both (leb 100 port) (leb port 200) range in
    (b, port, e ∙ ap some is, f, g, leb→le 100 port low, leb→le port 200 high)

-- What `main` finds in its buffer.
ports_lem :
    (packet rest : List ℕ) (b port : ℕ)
    → get_elem? packet 9 ≡ some 6
    → get_elem? packet 0 ≡ some b
    → load_half packet (4 * (b % 16) + 2) ≡ some port
    → ports (take 2000 packet ++ rest) ≡ some (tcp_port port ∷ [])
unfolding ports
ports_lem packet rest b port e f g =
    let e' = received-get_elem? 2000 packet rest 9 6 (omega arith) e in
    let f' = received-get_elem? 2000 packet rest 0 b (omega arith) f in
    let g' = received-load_half packet rest (4 * (b % 16) + 2) port (omega arith) g in
    rw e' (rw f' (rw g' refl))

-- In a round with a buffer of any content, a packet that the filter lets through is printed byte by byte, up
-- to 2000, and then as a TCP packet, with the port of the packet; that is from 100 to 200.
pub round_lem :
    (packet packet_buf : List ℕ) (n : ℕ)
    → filter packet ≡ some n
    → n ≢ 0
    → let received = take 2000 packet in
      (port : ℕ) × (round packet packet_buf
        ≡ some (
          map byte received ++ newline ∷ tcp_port port ∷ [],
          received ++ drop (length received) packet_buf,
        ))
      × (dest packet ≡ some port)
      × (100 ≤ port)
      × (port ≤ 200)
unfolding round
round_lem packet packet_buf n e ne =
    let rest = drop (length (take 2000 packet)) packet_buf in
    let (b, port, six, f, g, low, high) = passes_parts packet (passes_lem packet n e ne) in
    (port, rw (ports_lem packet rest b port six f g) refl, rw f g, low, high)
