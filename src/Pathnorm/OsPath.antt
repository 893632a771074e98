-- ===== src/Pathnorm/OsPath.antt =====
-- internal/pathnorm/pathnorm.go: the path on disk of a key under a root.
use merkle_lan_sync.Base.{
  ℕ, Bool, true, false, List, [], ◌∷◌, ◌++◌, if◌then◌else◌, ◌==◌, length, ltb,
}
use merkle_lan_sync.Pathnorm.Slash.{slash, split, join}
use merkle_lan_sync.Pathnorm.Windows.{escape_for_windows}

pub data Target : Type 0 where
  unix windows : Target

unfoldable pub sep_of : Target → ℕ
sep_of unix = slash
sep_of windows = b'\\'

unfoldable pub all_are : ℕ → List ℕ → Bool
all_are sep [] = true
all_are sep (c ∷ s) = let rest = all_are sep s in if c == sep then rest else false

-- `strings.TrimRight` of one byte.
unfoldable pub trim_right : ℕ → List ℕ → List ℕ
trim_right sep [] = []
trim_right sep (c ∷ s) =
    let rest = trim_right sep s in
    if c == sep then (if all_are sep s then [] else c ∷ rest) else c ∷ rest

unfoldable pub escape_each : List (List ℕ) → List (List ℕ)
escape_each [] = []
escape_each (c ∷ comps) = escape_for_windows c ∷ escape_each comps

-- The key with the components and the separator of the target.
unfoldable pub relative_path : List ℕ → Target → List ℕ
relative_path key unix = if length key == 0 then key else join (sep_of unix) (split slash key)
relative_path key windows =
    if length key == 0 then key else join (sep_of windows) (escape_each (split slash key))

unfoldable pub to_os_path : List ℕ → List ℕ → Target → List ℕ
to_os_path root key target =
    let rel = relative_path key target in
    let top = trim_right (sep_of target) root in
    if length root == 0 then rel else if length rel == 0 then top else top ++ (sep_of target ∷ rel)

abbrev pub max_path : ℕ
max_path = 260

unfoldable pub would_exceed_max_path : List ℕ → List ℕ → Bool
would_exceed_max_path root key = ltb max_path (length (to_os_path root key windows))
