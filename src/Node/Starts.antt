-- ===== src/Node/Starts.antt =====
-- Whether the MAC layer was initialised before anything else.
use sufficient_io_t_applicat.Base.{Bool, true, false, [], ◌∷◌}
use sufficient_io_t_applicat.Node.{Call, History}

-- The oldest call, and no other one, initialises the MAC layer.
abbrev pub mac_first : History → Bool
mac_first [] = false
mac_first (Call.mac_initialization region ∷ []) = true
mac_first (Call.mac_initialization region ∷ c ∷ calls) = false
mac_first (c ∷ calls) = mac_first calls
