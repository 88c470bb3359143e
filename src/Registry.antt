-- ===== src/Registry.antt =====
-- src/plugin_registry.c: the registry of loaded plugins. Each function holds the registry's mutex
-- from its first access to its last, so a call is one step; strings are lists of bytes other than
-- zero, and a pointer to an entry is the entry. The count of instances is a C int that the model
-- keeps below no bound.
pub mod Names
pub mod Invariant
pub mod Calls
pub mod Counts
mod Tests
use mutineer.Prelude.{
  ℕ, suc, ◌+◌, ◌-◌, Bool, true, false, not, ◌&&◌, Option, none, some, List, [], ◌∷◌, ◌++◌, ltb, leb,
  ◌==◌, if◌then◌else◌, length, take,
}

abbrev pub registry_max : ℕ
registry_max = 64

abbrev pub path_size : ℕ
path_size = 256

-- The strings of a descriptor, NULL as `none`; the registry copies its numbers and functions
-- unread.
pub record PluginDesc : Type 0 where
  pub id : Option (List ℕ)
  pub name : Option (List ℕ)
  pub version : Option (List ℕ)
  pub author : Option (List ℕ)
  pub description : Option (List ℕ)

pub record PluginEntry : Type 0 where
  pub desc : PluginDesc
  pub dl_handle : Option ℕ
  pub path : List ℕ
  pub instance_count : ℕ
  pub loaded : Bool

-- `plugins` is the part of the array below g_plugin_count.
pub record Registry : Type 0 where
  pub plugins : List PluginEntry
  pub initialized : Bool

abbrev pub strcmp_eq : List ℕ → List ℕ → Bool
strcmp_eq [] [] = true
strcmp_eq [] (y ∷ ys) = false
strcmp_eq (x ∷ xs) [] = false
strcmp_eq (x ∷ xs) (y ∷ ys) = if x == y then strcmp_eq xs ys else false

-- The test of every loop over the plugins.
abbrev pub is_named : List ℕ → PluginEntry → Bool
is_named id e = elim (e.desc.id) [ none ↦ false | some own ↦ e.loaded && strcmp_eq own id ]

unfoldable pub find_from : List PluginEntry → List ℕ → Option PluginEntry
find_from [] id = none
find_from (e ∷ es) id = if is_named id e then some e else find_from es id

-- What the loops of remove, instance_inc and instance_dec do to the entry that they find first.
unfoldable pub change_first :
    (PluginEntry → PluginEntry) → List ℕ → List PluginEntry → List PluginEntry
change_first f id [] = []
change_first f id (e ∷ es) = if is_named id e then f e ∷ es else e ∷ change_first f id es

unfoldable pub init : Registry
init = record { plugins = []; initialized = true }

unfoldable pub shutdown : Registry
shutdown = record { plugins = []; initialized = false }

-- strncpy into the array with room for the terminator, or the empty string for NULL.
abbrev copied_path : Option (List ℕ) → List ℕ
copied_path none = []
copied_path (some p) = take (path_size - 1) p

abbrev pub new_entry : PluginDesc → Option ℕ → Option (List ℕ) → PluginEntry
new_entry desc dl_handle path = record {
  desc = desc;
  dl_handle = dl_handle;
  path = copied_path path;
  instance_count = 0;
  loaded = true;
}

unfoldable pub add_named :
    Registry → PluginDesc → List ℕ → Option ℕ → Option (List ℕ) → Bool × Registry
add_named r desc id dl_handle path = elim (find_from r.plugins id) [
  | some e ↦ (false, r)
  | none ↦
      if leb registry_max (length r.plugins)
      then (false, r)
      else (true, record r { plugins = r.plugins ++ new_entry desc dl_handle path ∷ [] })
]

unfoldable pub add_of :
    Registry → PluginDesc → Option (List ℕ) → Option ℕ → Option (List ℕ) → Bool × Registry
add_of r desc none dl_handle path = (false, r)
add_of r desc (some id) dl_handle path = add_named r desc id dl_handle path

unfoldable pub add : Registry → Option PluginDesc → Option ℕ → Option (List ℕ) → Bool × Registry
add r none dl_handle path = (false, r)
add r (some desc) dl_handle path = add_of r desc desc.id dl_handle path

abbrev pub unload : PluginEntry → PluginEntry
unload e = record e { loaded = false; dl_handle = none }

unfoldable pub remove : Registry → Option (List ℕ) → Bool × Registry
remove r none = (false, r)
remove r (some id) = elim (find_from r.plugins id) [
  | none ↦ (false, r)
  | some e ↦ (true, record r { plugins = change_first unload id r.plugins })
]

unfoldable pub find : Registry → Option (List ℕ) → Option PluginEntry
find r none = none
find r (some id) = find_from r.plugins id

unfoldable pub count_from : List PluginEntry → ℕ
count_from [] = 0
count_from (e ∷ es) = if e.loaded then suc (count_from es) else count_from es

unfoldable pub count : Registry → ℕ
count r = count_from r.plugins

-- The second number is the loop's count of the loaded plugins behind it.
unfoldable pub get_from : List PluginEntry → ℕ → ℕ → Option PluginEntry
get_from [] index n = none
get_from (e ∷ es) index n =
    if e.loaded
    then (if n == index then some e else get_from es index (suc n))
    else get_from es index n

unfoldable pub get : Registry → ℕ → Option PluginEntry
get r index = get_from r.plugins index 0

abbrev pub inc : PluginEntry → PluginEntry
inc e = record e { instance_count = suc e.instance_count }

abbrev pub dec : PluginEntry → PluginEntry
dec e = record e {
  instance_count = if ltb 0 e.instance_count then e.instance_count - 1 else e.instance_count;
}

unfoldable pub instance_inc : Registry → Option (List ℕ) → Registry
instance_inc r none = r
instance_inc r (some id) = record r { plugins = change_first inc id r.plugins }

unfoldable pub instance_dec : Registry → Option (List ℕ) → Registry
instance_dec r none = r
instance_dec r (some id) = record r { plugins = change_first dec id r.plugins }

abbrev pub count_of : Option PluginEntry → ℕ
count_of none = 0
count_of (some e) = e.instance_count

unfoldable pub instance_count : Registry → Option (List ℕ) → ℕ
instance_count r none = 0
instance_count r (some id) = count_of (find_from r.plugins id)

unfoldable pub has_instances_from : List PluginEntry → Bool
has_instances_from [] = false
has_instances_from (e ∷ es) =
    if e.loaded && ltb 0 e.instance_count then true else has_instances_from es

unfoldable pub has_instances : Registry → Bool
has_instances r = has_instances_from r.plugins

abbrev or_default : Option (List ℕ) → List ℕ → List ℕ
or_default none d = d
or_default (some s) d = s

abbrev unknown : List ℕ
unknown = b'u' ∷ b'n' ∷ b'k' ∷ b'n' ∷ b'o' ∷ b'w' ∷ b'n' ∷ []

abbrev unnamed : List ℕ
unnamed = b'u' ∷ b'n' ∷ b'n' ∷ b'a' ∷ b'm' ∷ b'e' ∷ b'd' ∷ []

abbrev no_version : List ℕ
no_version = b'0' ∷ b'.' ∷ b'0' ∷ b'.' ∷ b'0' ∷ []

abbrev instances : List ℕ
instances =
    b' ' ∷ b'[' ∷ b'i' ∷ b'n' ∷ b's' ∷ b't' ∷ b'a' ∷ b'n' ∷ b'c' ∷ b'e' ∷ b's' ∷ b':' ∷ b' ' ∷ []

-- The format of the list; `decimal` is what the C library's snprintf prints for %d.
unfoldable pub list_line : (ℕ → List ℕ) → PluginEntry → List ℕ
list_line decimal e =
    or_default (e.desc.id) unknown
    ++ (b':' ∷ b' ' ∷ or_default (e.desc.name) unnamed
        ++ (b' ' ∷ b'(' ∷ or_default (e.desc.version) no_version
            ++ (b')' ∷ b' ' ∷ b'-' ∷ b' ' ∷ or_default (e.desc.description) []
                ++ (instances ++ (decimal e.instance_count ++ b']' ∷ 10 ∷ [])))))

-- `buf` is the string written so far; a line that does not fit is cut and ends the loop.
unfoldable pub list_from : (ℕ → List ℕ) → List PluginEntry → ℕ → List ℕ → List ℕ × ℕ
list_from decimal [] buf_sz buf = (buf, length buf)
list_from decimal (e ∷ es) buf_sz buf =
    let line = list_line decimal e in
    let space = buf_sz - length buf in
    if not e.loaded
    then list_from decimal es buf_sz buf
    else if leb space (length line)
    then (buf ++ take (space - 1) line, length buf)
    else list_from decimal es buf_sz (buf ++ line)

-- The string left in the buffer, and the answer; with no place at all nothing is written.
unfoldable pub list : (ℕ → List ℕ) → Registry → ℕ → List ℕ × ℕ
list decimal r buf_sz = if buf_sz == 0 then ([], 0) else list_from decimal r.plugins buf_sz []
