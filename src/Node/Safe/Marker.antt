-- ===== src/Node/Safe/Marker.antt =====
-- The steps on commit markers keep to the protocol: aggregate-risk-gate/src/node_ledger.rs.
use agent_governance_policie.Prelude.{
  ℕ, zero, suc, ◌+◌, Bool, true, false, Option, none, some, String, ◌≡◌, refl, inl, ok,
}
use agent_governance_policie.Node.Store.{
  Put, Marker, Record, Cell, Answer, record_cell, marker_cell, count_cell, mode_of,
}
use agent_governance_policie.Node.Worker.{
  NodeLedger, Step, store_put, marker_key, marker_prefix, marker_count_key, marker_retries,
  settle_retries,
}
use agent_governance_policie.Node.Marker.{
  Read, new, live, read, read_of, set_refused, refuse_slot, marker_slot_at, marker_slot,
  release_marker_slot, write_marker, put_marker,
}
use agent_governance_policie.Node.Logic.{
  Protocol, Keeps, Any, >>=-Keeps, pure-Keeps, weaken-Any, when-Keeps, change-Keeps, keys-Keeps,
  put-Keeps,
}
use agent_governance_policie.Node.Logic.Cases.{
  then_answer, then_found, then_write, WasFound, get_record-Keeps, get_count-Keeps,
}
use agent_governance_policie.Node.Evolve.{
  Evolves, counted, recounted, IsPlaced, replaced, node_protocol,
}

module _ (ledger : NodeLedger) (content : String → String → Cell)
    (Done : String → Cell → Type 0) where
  abbrev pub protocol : Protocol
  protocol = node_protocol ledger content Done

  -- What a scope's key was found to hold.
  unfoldable pub WasRead : String → Answer Read → Type 0
  WasRead key (ok (live state version)) = record_cell (Record.scope state) ≡ content key version
  WasRead key (ok (new (some version) period)) =
      (since : ℕ) × (record_cell (Record.vacant since period) ≡ content key version)
  WasRead key (ok (new none period)) = period ≡ 0
  WasRead key _ = Unit

  read_of-WasRead :
      (key : String) (r : Record) (version : String)
      → record_cell r ≡ content key version
      → WasRead key (ok (read_of (some (r, version))))
  unfolding read_of WasRead
  read_of-WasRead key (Record.scope state) version found = found
  read_of-WasRead key (Record.vacant since period) version found = (since, found)
  read_of-WasRead key (Record.doomed at period) version found = tt

  pub read-Keeps : (key : String) → Keeps protocol (read key) (WasRead key)
  unfolding read read_of WasRead WasFound node_protocol
  read-Keeps key =
      then_found _ (get_record-Keeps key)
        (λ p found. pure-Keeps _ (read_of-WasRead key p.0 p.1 found.0)) (λ found. pure-Keeps _ refl)
        (λ e found. pure-Keeps _ tt)

  pub set_refused-Keeps : (refused : Bool) → Keeps protocol (set_refused refused) Any
  unfolding set_refused
  set_refused-Keeps refused = change-Keeps _

  pub refuse_slot-Keeps : Keeps protocol (refuse_slot ledger) Any
  unfolding refuse_slot
  refuse_slot-Keeps = >>=-Keeps (set_refused-Keeps true) λ a h. pure-Keeps _ tt

  put_count_marker-Keeps :
      (mode : Put) (count : ℕ)
      → Evolves ledger
          (Done (marker_count_key ledger))
          (replaced content (marker_count_key ledger) mode)
          (count_cell count)
      → Keeps protocol (store_put (marker_count_key ledger) mode (count_cell count)) Any
  unfolding node_protocol IsPlaced marker_count_key
  put_count_marker-Keeps mode count evolves = weaken-Any (put-Keeps _ _ _ (inl refl, evolves))

  -- A count that was read, or that there is none of.
  unfoldable pub WasCount : String → Option String → ℕ → Type 0
  WasCount key none count = Unit
  WasCount key (some version) count = count_cell count ≡ content key version

  pub count-Evolves :
      (key : String) (version : Option String) (old fresh : ℕ)
      → WasCount key version old
      → Evolves ledger (Done key) (replaced content key (mode_of version)) (count_cell fresh)
  unfolding WasCount mode_of replaced
  count-Evolves key none old fresh found = counted
  count-Evolves key (some version) old fresh found = rw (← found) recounted

  marker_slot_at-Keeps :
      (count : ℕ) (version : Option String) (again : Step (Answer (Unit {0})))
      → WasCount (marker_count_key ledger) version count
      → Keeps protocol again Any
      → Keeps protocol (marker_slot_at ledger count version again) Any
  unfolding marker_slot_at mode_of WasCount
  marker_slot_at-Keeps count none again found rest =
      when-Keeps _
        (λ full.
          then_write _
            (put_count_marker-Keeps Put.absent count (count-Evolves _ none count count tt))
            (λ a h. refuse_slot-Keeps) (λ h. rest) (λ h. pure-Keeps _ tt))
        (λ room.
          then_write _ (put_count_marker-Keeps _ _ (count-Evolves _ none count (count + 1) tt))
            (λ a h. pure-Keeps _ tt) (λ h. rest) (λ h. pure-Keeps _ tt))
  marker_slot_at-Keeps count (some version) again found rest =
      when-Keeps _ (λ full. refuse_slot-Keeps)
        (λ room.
          then_write _
            (put_count_marker-Keeps _ _ (count-Evolves _ (some version) count (count + 1) found))
            (λ a h. pure-Keeps _ tt) (λ h. rest) (λ h. pure-Keeps _ tt))

  found-WasCount :
      (key : String) (count : ℕ) (version : String)
      → WasFound protocol count_cell key (ok (some (count, version)))
      → WasCount key (some version) count
  unfolding WasFound WasCount node_protocol
  found-WasCount key count version found = found.0

  marker_slot-Keeps : (rounds : ℕ) → Keeps protocol (marker_slot ledger rounds) Any
  unfolding marker_slot WasCount
  marker_slot-Keeps zero = pure-Keeps _ tt
  marker_slot-Keeps (suc rounds) =
      then_found _ (get_count-Keeps _)
        (λ p found.
          marker_slot_at-Keeps p.0 (some p.1) _ (found-WasCount _ p.0 p.1 found)
            (marker_slot-Keeps rounds))
        (λ h.
          then_answer _ keys-Keeps
            (λ ks h. marker_slot_at-Keeps _ none _ tt (marker_slot-Keeps rounds))
            (λ e h. pure-Keeps _ tt))
        (λ e h. pure-Keeps _ tt)

  pub release_marker_slot-Keeps :
      (rounds : ℕ) → Keeps protocol (release_marker_slot ledger rounds) Any
  unfolding release_marker_slot mode_of
  release_marker_slot-Keeps zero = pure-Keeps _ tt
  release_marker_slot-Keeps (suc rounds) =
      then_found _ (get_count-Keeps _)
        (λ p found.
          then_write _
            (put_count_marker-Keeps (Put.cas p.1) _
              (count-Evolves _ (some p.1) p.0 _ (found-WasCount _ p.0 p.1 found)))
            (λ a h. pure-Keeps _ tt) (λ h. release_marker_slot-Keeps rounds) (λ h. pure-Keeps _ tt))
        (λ h. pure-Keeps _ tt) (λ e h. pure-Keeps _ tt)

  -- What the write of a marker gives, and the replacement that it makes.
  abbrev pub WasMarked : Marker → Answer (Unit {0}) → Type 0
  WasMarked marker answer = answer ≡ ok tt → Done (marker_key ledger marker.id) (marker_cell marker)

  abbrev pub MayMark : Marker → Option String → Type 0
  MayMark marker version =
      Evolves ledger (Done (marker_key ledger marker.id))
        (replaced content (marker_key ledger marker.id) (mode_of version)) (marker_cell marker)

  write_marker-Keeps :
      (marker : Marker) (version : Option String)
      → MayMark marker version
      → Keeps protocol (write_marker ledger marker version) (WasMarked marker)
  unfolding write_marker node_protocol IsPlaced marker_key marker_prefix
  write_marker-Keeps marker (some version) may =
      >>=-Keeps (put-Keeps _ _ _ (refl, may)) λ result done. pure-Keeps _ done
  write_marker-Keeps marker none may =
      then_write _ (put-Keeps _ _ _ (refl, may)) (λ a done. pure-Keeps _ done)
        (λ h. >>=-Keeps (release_marker_slot-Keeps settle_retries) λ a h. pure-Keeps _ (λ e. cc))
        (λ h. pure-Keeps _ (λ e. cc))

  pub put_marker-Keeps :
      (marker : Marker) (version : Option String)
      → MayMark marker version
      → Keeps protocol (put_marker ledger marker version) (WasMarked marker)
  unfolding put_marker
  put_marker-Keeps marker (some version) may =
      >>=-Keeps (set_refused-Keeps false) λ a h. write_marker-Keeps marker (some version) may
  put_marker-Keeps marker none may = >>=-Keeps (set_refused-Keeps false) λ a h.
      then_answer _ (marker_slot-Keeps marker_retries) (λ a h. write_marker-Keeps marker none may)
        (λ e h. pure-Keeps _ (λ same. cc))
