-- ===== src/Node/Safe/Scan.antt =====
-- A whole scan, and the periodic collection, keep to the protocol:
-- aggregate-risk-gate/src/node_ledger.rs.
use agent_governance_policie.Prelude.{ℕ, List, [], ◌∷◌, String, some}
use agent_governance_policie.Node.Store.{Sweep, Cell}
use agent_governance_policie.Node.Worker.{NodeLedger, settle_retries}
use agent_governance_policie.Node.Sweep.{
  Scan, sweep_one, sweep_all, sweep_scan, sweep, maybe_collect,
}
use agent_governance_policie.Node.Logic.{
  Keeps, Any, >>=-Keeps, pure-Keeps, when-Keeps, ask-Keeps, change-Keeps, keys-Keeps, now-Keeps,
}
use agent_governance_policie.Node.Logic.Cases.{then_answer, then_found, WasFound, get_record-Keeps}
use agent_governance_policie.Node.Evolve.{node_protocol}
use agent_governance_policie.Node.Safe.Marker.{protocol}
use agent_governance_policie.Node.Safe.Collect.{collect_marker-Keeps}
use agent_governance_policie.Node.Safe.Slots.{adjust_count-Keeps, put_sweep-Keeps, then_swept}
use agent_governance_policie.Node.Safe.Sweep.{sweep_record-Keeps}

module _ (ledger : NodeLedger) (content : String → String → Cell)
    (Done : String → Cell → Type 0) where
  sweep_one-Keeps :
      (key : String) (now clock : ℕ) (scan : Scan)
      → Keeps (protocol ledger content Done) (sweep_one ledger key now clock scan) Any
  unfolding sweep_one WasFound node_protocol
  sweep_one-Keeps key now clock scan =
      when-Keeps _
        (λ marker.
          >>=-Keeps (collect_marker-Keeps ledger content Done key clock) λ a h. pure-Keeps _ tt)
        (λ other.
          then_found _ (get_record-Keeps key)
            (λ p found.
              >>=-Keeps
                (sweep_record-Keeps ledger content Done key p.0 p.1 now clock scan.next_idle
                  found.0)
                λ r h. pure-Keeps _ tt)
            (λ h. pure-Keeps _ tt) (λ e h. pure-Keeps _ tt))

  sweep_all-Keeps :
      (ks : List String) (budget now clock : ℕ) (scan : Scan)
      → Keeps (protocol ledger content Done) (sweep_all ledger ks budget now clock scan) Any
  unfolding sweep_all
  sweep_all-Keeps [] budget now clock scan = pure-Keeps _ tt
  sweep_all-Keeps (key ∷ rest) budget now clock scan =
      when-Keeps _ (λ spent. pure-Keeps _ tt)
        (λ room.
          >>=-Keeps (sweep_one-Keeps key now clock _)
            λ next h. sweep_all-Keeps rest _ now clock next)

  sweep_scan-Keeps :
      (listed : List String) (s : Sweep) (version : String) (now clock : ℕ)
      → Keeps (protocol ledger content Done) (sweep_scan ledger listed s version now clock) Any
  unfolding sweep_scan
  sweep_scan-Keeps listed s version now clock =
      >>=-Keeps (sweep_all-Keeps _ _ now clock _) λ scan h.
        >>=-Keeps
          (when-Keeps {Q = Any} _
            (λ freed. adjust_count-Keeps ledger content Done settle_retries scan.freed)
            (λ same. pure-Keeps _ tt))
          λ a h. >>=-Keeps (change-Keeps _) λ a h.
            >>=-Keeps (put_sweep-Keeps ledger content Done _ (some version)) λ a h. pure-Keeps _ tt

  pub sweep-Keeps :
      (now : ℕ) (version : String)
      → Keeps (protocol ledger content Done) (sweep ledger now version) Any
  unfolding sweep
  sweep-Keeps now version = >>=-Keeps now-Keeps λ time h.
      then_answer _ keys-Keeps
        (λ ks h.
          then_swept ledger content Done _
            (λ s found.
              when-Keeps _
                (λ log.
                  then_answer _ (put_sweep-Keeps ledger content Done _ found)
                    (λ mine h. sweep_scan-Keeps ks _ mine now _) (λ e h. pure-Keeps _ tt))
                (λ quiet. sweep_scan-Keeps ks s version now _))
            (λ e. pure-Keeps _ tt))
        (λ e h. pure-Keeps _ tt)

  pub maybe_collect-Keeps :
      (now : ℕ) → Keeps (protocol ledger content Done) (maybe_collect ledger now) Any
  unfolding maybe_collect
  maybe_collect-Keeps now = >>=-Keeps (ask-Keeps _) λ check h.
      when-Keeps _ (λ early. pure-Keeps _ tt)
        (λ due. >>=-Keeps (change-Keeps _) λ a h.
          then_swept ledger content Done _
            (λ s version.
              when-Keeps _ (λ early. pure-Keeps _ tt)
                (λ due.
                  then_answer _ (put_sweep-Keeps ledger content Done _ version)
                    (λ mine h. sweep-Keeps now mine) (λ e h. pure-Keeps _ tt)))
            (λ e. pure-Keeps _ tt))
