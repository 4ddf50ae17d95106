-- ===== src/System/FirstStart.antt =====
-- The first start of the program, with the configuration that it writes itself.
use daemon_choir.Base.{String, ◌≡◌, ◌⊎◌, List, [], ◌∷◌}
use daemon_choir.Mapping.{MappedParam}
use daemon_choir.System.{System}

abbrev IsOneOf : String → List String → Type 0
IsOneOf a [] = ⊥
IsOneOf a (b ∷ bs) = (a ≡ b) ⊎ IsOneOf a bs

-- the address of one of the six rules of the file
abbrev pub IsVoice : {F : Type 0} → MappedParam F → Type 0
IsVoice p = IsOneOf p.osc_address (
    "/choir/voice/0/frequency" ∷ "/choir/voice/0/amplitude" ∷ "/choir/voice/1/frequency"
    ∷ "/choir/voice/2/filter_resonance" ∷ "/choir/voice/2/frequency" ∷ "/choir/voice/3/trigger"
    ∷ [])
