-- ===== src/Types/Spelling.antt =====
-- crates/types/src/lib.rs: the spellings of the domain enums and their parsers agree.
use circus.Common.{String, ◌≡◌, ◌↔◌, ok, parse_iff}
use circus.Types.GlobalRole
use circus.Types.GlobalRole.{GlobalRole}
use circus.Types.ProjectRole
use circus.Types.ProjectRole.{ProjectRole}
use circus.Types.AuthKind
use circus.Types.AuthKind.{AuthKind}
use circus.Types.ForgeType
use circus.Types.ForgeType.{ForgeType}
use circus.Types.NotificationType
use circus.Types.NotificationType.{NotificationType}
use circus.Types.InputType
use circus.Types.InputType.{InputType}

-- For each of the six enums, the parser returns a value on a text exactly when the text is that
-- value's spelling: it inverts `as_str`, and it refuses every other text.
domain_enums_exact :
    (s : String) (g : GlobalRole) (p : ProjectRole) (a : AuthKind) (f : ForgeType)
    (n : NotificationType) (i : InputType)
    → ((GlobalRole.from_str s ≡ ok g) ↔ (GlobalRole.as_str g ≡ s))
      × ((ProjectRole.from_str s ≡ ok p) ↔ (ProjectRole.as_str p ≡ s))
      × ((AuthKind.from_str s ≡ ok a) ↔ (AuthKind.as_str a ≡ s))
      × ((ForgeType.from_str s ≡ ok f) ↔ (ForgeType.as_str f ≡ s))
      × ((NotificationType.from_str s ≡ ok n) ↔ (NotificationType.as_str n ≡ s))
      × ((InputType.from_str s ≡ ok i) ↔ (InputType.as_str i ≡ s))
domain_enums_exact s g p a f n i = (
  parse_iff GlobalRole.as_str GlobalRole.from_str GlobalRole.from_str_sound
      GlobalRole.from_str-as_str s g,
  parse_iff ProjectRole.as_str ProjectRole.from_str ProjectRole.from_str_sound
      ProjectRole.from_str-as_str s p,
  parse_iff AuthKind.as_str AuthKind.from_str AuthKind.from_str_sound AuthKind.from_str-as_str s a,
  parse_iff ForgeType.as_str ForgeType.from_str ForgeType.from_str_sound ForgeType.from_str-as_str s
      f,
  parse_iff NotificationType.as_str NotificationType.from_str NotificationType.from_str_sound
      NotificationType.from_str-as_str s n,
  parse_iff InputType.as_str InputType.from_str InputType.from_str_sound InputType.from_str-as_str s
      i,
)
