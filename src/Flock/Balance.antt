-- ===== src/Flock/Balance.antt =====
-- The file locks of utils.c leave no descriptor open that the caller does not get.
use gittest.Prelude.{
  ℕ, ◌≡◌, ◌⊎◌, refl, ◌∙◌, ◌==◌, ==_iff, Bool, true, false, Option, none, some, inl, inr,
  if◌then◌else◌, Bool-cases, ap, sym,
}
use gittest.Prelude.Int.{ℤ, pos, negsuc}
use gittest.Utils.Chars.{Text}
use gittest.Flock.{
  Operation, lock_ex, lock_sh, lock_un, Kernel, lock_opened, flock_exlock, flock_shlock,
  flock_unlock,
}

-- Which descriptors are open, as open(2), flock(2) and close(2) say: a new one was not open before.
pub record Descriptors {S : Type 0} (kernel : Kernel S) : Type 0 where
  pub is_open : S → ℕ → Bool
  pub open_new :
      (s : S) (p : Text) (fd : ℕ) (s' : S)
      → kernel.open_file s p ≡ (some fd, s')
      → is_open s fd ≡ false
  pub open_adds :
      (s : S) (p : Text) (fd : ℕ) (s' : S) (q : ℕ)
      → kernel.open_file s p ≡ (some fd, s')
      → is_open s' q ≡ (if q == fd then true else is_open s q)
  pub open_fails :
      (s : S) (p : Text) (s' : S) (q : ℕ)
      → kernel.open_file s p ≡ (none, s')
      → is_open s' q ≡ is_open s q
  pub flock_keeps :
      (s : S) (fd q : ℕ) (op : Operation) → is_open (kernel.flock s fd op).1 q ≡ is_open s q
  pub close_removes :
      (s : S) (fd q : ℕ) → is_open (kernel.close s fd) q ≡ (if q == fd then false else is_open s q)

module _ {S : Type 0} (kernel : Kernel S) (ds : Descriptors kernel) where
  -- A lock is taken on a new descriptor, which is returned open, or -1 or -2 is returned; either way
  -- all other descriptors are as they were.
  abbrev pub Balanced : S → ℤ × S → Type 0
  Balanced s r =
      ((fd : ℕ) × (r.0 ≡ pos fd)
        × (ds.is_open s fd ≡ false)
        × ((q : ℕ) → ds.is_open r.1 q ≡ (if q == fd then true else ds.is_open s q)))
      ⊎ (((r.0 ≡ negsuc 0) ⊎ (r.0 ≡ negsuc 1)) × ((q : ℕ) → ds.is_open r.1 q ≡ ds.is_open s q))

  closed_again :
      (s s' : S) (p : Text) (fd : ℕ) (op : Operation) (q : ℕ)
      → kernel.open_file s p ≡ (some fd, s')
      → ds.is_open (kernel.close (kernel.flock s' fd op).1 fd) q ≡ ds.is_open s q
  closed_again s s' p fd op q e = elim (Bool-cases (q == fd)) [
    | inl is ↦
        let same : q ≡ fd = (==_iff q fd).0 is in
        ds.close_removes (kernel.flock s' fd op).1 fd q
        ∙ rw is (sym (ap (ds.is_open s) same ∙ ds.open_new s p fd s' e))
    | inr other ↦
        ds.close_removes (kernel.flock s' fd op).1 fd q
        ∙ rw other (ds.flock_keeps s' fd q op ∙ ds.open_adds s p fd s' q e ∙ rw other refl)
  ]

  lock_by :
      (s : S) (p : Text) (op : Operation) (o : Option ℕ × S)
      → kernel.open_file s p ≡ o
      → Balanced s (lock_opened kernel op o)
  lock_by s p op (none, s') e = inr (inl refl, λ q. ds.open_fails s p s' q e)
  lock_by s p op (some fd, s') e = elim (Bool-cases (kernel.flock s' fd op).0) [
    | inl ok ↦ rw ok (
        inl (
          fd,
          refl,
          ds.open_new s p fd s' e,
          λ q. ds.flock_keeps s' fd q op ∙ ds.open_adds s p fd s' q e,
        ))
    | inr bad ↦ rw bad (inr (inr refl, λ q. closed_again s s' p fd op q e))
  ]

  -- With a kernel that keeps its descriptors as documented: `flock_exlock` and `flock_shlock` return a
  -- descriptor that was not open before, and open no other one; or they return -1 or -2, and then no
  -- descriptor is left open that was not. `flock_unlock` closes its descriptor, and no other one.
  pub flock_lem :
      (s : S) (lock_file : Text) (fd : ℕ)
      → Balanced s (flock_exlock kernel lock_file s)
        × Balanced s (flock_shlock kernel lock_file s)
        × ((q : ℕ)
            → ds.is_open (flock_unlock kernel fd s) q ≡ (if q == fd then false else ds.is_open s q))
  unfolding flock_exlock flock_shlock flock_unlock
  flock_lem s lock_file fd = (
    lock_by s lock_file lock_ex (kernel.open_file s lock_file) refl,
    lock_by s lock_file lock_sh (kernel.open_file s lock_file) refl,
    λ q.
        ds.close_removes (kernel.flock s fd lock_un).1 fd q
        ∙ ap (λ b. if q == fd then false else b) (ds.flock_keeps s fd q lock_un),
  )
