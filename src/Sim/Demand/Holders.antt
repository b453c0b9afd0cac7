-- ===== src/Sim/Demand/Holders.antt =====
-- The holder counts of the incidents in internal/sim/traffic.go.
use vikasa_demo.Base.{
  ℕ, ◌+◌, ◌-◌, ◌≡◌, String, str_eq, if◌then◌else◌, arith, eq_iff, get-put, get-remove, Dict,
  string_eq,
}
use vikasa_demo.Sim.Demand.{holders, add_hold, remove_hold}

pub holders-add_hold :
    (id j : String) (m : Dict String ℕ)
    → holders j (add_hold id m) ≡ (if str_eq id j then holders j m + 1 else holders j m)
unfolding add_hold
holders-add_hold id j m = ground (arith, get-put id j (holders id m + 1) m, eq_iff id j)

-- At 0 the truncated subtraction leaves 0: the entry is gone.
pub holders-remove_hold :
    (id j : String) (m : Dict String ℕ)
    → holders j (remove_hold id m) ≡ (if str_eq id j then holders j m - 1 else holders j m)
unfolding remove_hold
holders-remove_hold id j m =
    ground (arith, get-put id j (holders id m - 1) m, get-remove id j m, eq_iff id j)
