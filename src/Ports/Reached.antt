-- ===== src/Ports/Reached.antt =====
-- The tables that src/ports.c can reach: an empty one, and what registering and removing handlers
-- makes of it.
use pculator.Base.{ℕ, ◌≡◌, some}
use pculator.Ports.{Port, Ports, highest, getportmap, cb_register_ex, cb_unregister}
use pculator.Ports.Table.{IsSearched}
use pculator.Ports.Handlers.{
  cb_register_ex-IsSearched, cb_unregister-IsSearched, getportmap-highest,
}

pub data Reached {D : Type 0} : Ports D → Type 0 where
  at_start : (s : Ports D) → ((i : ℕ) → Port.used (s.ports i) ≡ 0) → Reached s
  after_register :
      (start count : ℕ) (p : Port D) (s t : Ports D)
      → Reached s
      → cb_register_ex start count p s ≡ some t
      → Reached t
  after_unregister :
      (start count : ℕ) (s : Ports D) → Reached s → Reached (cb_unregister start count s)

module _ {D : Type 0} where
  pub Reached-IsSearched : (s : Ports D) → Reached s → IsSearched s
  unfolding IsSearched
  Reached-IsSearched s (at_start _ unused) = λ i used. absurd (used (unused i))
  Reached-IsSearched t (after_register start count p s _ r e) =
      cb_register_ex-IsSearched start count p s t (Reached-IsSearched s r) e
  Reached-IsSearched _ (after_unregister start count s r) =
      cb_unregister-IsSearched start count s (Reached-IsSearched s r)

  -- In every table that is reached from one without handlers by registering and removing them, the
  -- lookup, which stops at the last slot that was in use, finds the highest of all 64 slots that
  -- serves the address.
  pub getportmap-Reached :
      (s : Ports D) (addr : ℕ) → Reached s → getportmap s addr ≡ highest 64 s.ports addr
  getportmap-Reached s addr r = getportmap-highest s addr (Reached-IsSearched s r)
