-- ===== src/Node/Safe/Slots.antt =====
-- The steps on the count of scopes and on the record of sweeps keep to the protocol:
-- aggregate-risk-gate/src/node_ledger.rs.
use Prim.Native.String.{◌++◌}
use agent_governance_policie.Prelude.{
  ℕ, zero, suc, ◌≤◌, Option, some, String, ◌≡◌, ◌⊎◌, refl, inl, inr, ok, err, arith,
}
use agent_governance_policie.Node.Store.{StoreError, Sweep, Cell, Answer}
use agent_governance_policie.Node.Worker.{NodeLedger, Step, ◌>>=◌, count_key, sweep_key}
use agent_governance_policie.Node.Slots.{
  or_default, Delta, apply_delta, read_count, put_count, adjust_count, read_sweep, put_sweep,
  hint_idle,
}
use agent_governance_policie.Node.Logic.{
  Keeps, Any, >>=-Keeps, pure-Keeps, weaken-Any, when-Keeps, get-Keeps, put-Keeps,
}
use agent_governance_policie.Node.Logic.Cases.{
  then_answer, then_found, then_versioned, then_write, WasFound, get_count-Keeps, get_sweep-Keeps,
}
use agent_governance_policie.Node.Evolve.{swept, node_protocol, IsPlaced}
use agent_governance_policie.Node.Safe.Marker.{protocol, WasCount, count-Evolves}

module _ (ledger : NodeLedger) (content : String → String → Cell)
    (Done : String → Cell → Type 0) where
  -- A number that may be kept as the count of scopes.
  abbrev pub IsCount : ℕ → Type 0
  IsCount n =
      (count_key ledger ≡ ledger.prefix ++ "m")
      ⊎ ((count_key ledger ≡ ledger.prefix ++ "n") × (n ≤ ledger.max_scopes))

  unfoldable pub WasCounted : Answer (ℕ × Option String) → Type 0
  WasCounted (ok (n, version)) =
      IsCount n × WasCount ledger content Done (count_key ledger) version n
  WasCounted (err e) = Unit

  pub read_count-Keeps : Keeps (protocol ledger content Done) (read_count ledger) WasCounted
  unfolding read_count or_default count_key WasCounted WasFound WasCount node_protocol IsPlaced
  read_count-Keeps =
      then_found _ (get_count-Keeps _) (λ p found. pure-Keeps _ (found.1, found.0))
        (λ h. pure-Keeps _ (inr (refl, omega arith), tt)) (λ e h. pure-Keeps _ tt)

  pub put_count-Keeps :
      (old fresh : ℕ) (version : Option String)
      → IsCount fresh
      → WasCount ledger content Done (count_key ledger) version old
      → Keeps (protocol ledger content Done) (put_count ledger fresh version) Any
  unfolding put_count node_protocol IsPlaced
  put_count-Keeps old fresh version count was =
      weaken-Any
        (put-Keeps _ _ _ (count, count-Evolves ledger content Done _ version old fresh was))

  fewer-IsCount : (n k : ℕ) → IsCount n → IsCount (apply_delta (Delta.fewer k) n)
  unfolding apply_delta
  fewer-IsCount n k (inl same) = inl same
  fewer-IsCount n k (inr small) = inr (small.0, omega (arith, small.1))

  pub adjust_count-Keeps :
      (rounds k : ℕ)
      → Keeps (protocol ledger content Done) (adjust_count ledger rounds (Delta.fewer k)) Any
  unfolding adjust_count WasCounted
  adjust_count-Keeps zero k = pure-Keeps _ tt
  adjust_count-Keeps (suc rounds) k =
      then_answer _ read_count-Keeps
        (λ p was.
          then_write _ (put_count-Keeps p.0 _ p.1 (fewer-IsCount p.0 k was.0) was.1)
            (λ a h. pure-Keeps _ tt) (λ h. adjust_count-Keeps rounds k) (λ h. pure-Keeps _ tt))
        (λ e h. pure-Keeps _ tt)

  pub read_sweep-Keeps : Keeps (protocol ledger content Done) (read_sweep ledger) Any
  unfolding read_sweep
  read_sweep-Keeps =
      then_answer _ (get_sweep-Keeps _) (λ p found. pure-Keeps _ tt) (λ e h. pure-Keeps _ tt)

  pub put_sweep-Keeps :
      (s : Sweep) (version : Option String)
      → Keeps (protocol ledger content Done) (put_sweep ledger s version) Any
  unfolding put_sweep node_protocol IsPlaced sweep_key
  put_sweep-Keeps s version =
      then_answer _ (put-Keeps _ _ _ (refl, swept))
        (λ a h.
          then_found _ (get-Keeps _) (λ p found. pure-Keeps _ tt) (λ h. pure-Keeps _ tt)
            (λ e h. pure-Keeps _ tt))
        (λ e h. pure-Keeps _ tt)

  -- A step on the sweep record that was read.
  pub then_swept :
      {B : Type 0} {Q : B → Type 0} (f : Answer (Sweep × Option String) → Step B)
      → ((s : Sweep) (version : Option String)
          → Keeps (protocol ledger content Done) (f (ok (s, version))) Q)
      → ((e : StoreError) → Keeps (protocol ledger content Done) (f (err e)) Q)
      → Keeps (protocol ledger content Done) (read_sweep ledger >>= f) Q
  then_swept f ok_case err_case =
      then_answer f read_sweep-Keeps (λ p h. ok_case p.0 p.1) (λ e h. err_case e)

  pub hint_idle-Keeps :
      (time : ℕ) → Keeps (protocol ledger content Done) (hint_idle ledger time) Any
  unfolding hint_idle
  hint_idle-Keeps time =
      then_versioned _ read_sweep-Keeps
        (λ s version h.
          when-Keeps _
            (λ sooner. >>=-Keeps (put_sweep-Keeps _ (some version)) λ a h. pure-Keeps _ tt)
            (λ later. pure-Keeps _ tt))
        (λ s h. pure-Keeps _ tt) (λ e h. pure-Keeps _ tt)
