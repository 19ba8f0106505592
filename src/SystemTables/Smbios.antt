-- ===== src/SystemTables/Smbios.antt =====
-- The SMBIOS functions of src/Initialize/systemTables.c. Their scans for zeros run on fuel.
use mini_user_os.Prelude.{
  ℕ, zero, suc, ◌+◌, ◌-◌, not, ◌||◌, ◌==◌, ltb, if◌then◌else◌, Option, none, some,
}
use mini_user_os.Machine.{null}
use mini_user_os.SystemTables.{Bytes, field}

-- `while (ptr[0] != 0 || ptr[1] != 0) ptr++`
unfoldable pub skip_strings : ℕ → ℕ → Bytes → ℕ
skip_strings zero ptr b = ptr
skip_strings (suc fuel) ptr b =
    let rest = skip_strings fuel (ptr + 1) b in
    if not (b ptr == 0) || not (b (ptr + 1) == 0) then rest else ptr

-- The field `Length` of a structure's header is its second byte.
unfoldable pub get_next : ℕ → ℕ → Bytes → ℕ
get_next fuel current b =
    if current == null then null else skip_strings fuel (current + b (current + 1)) b + 2

abbrev pub end_of_table : ℕ
end_of_table = 127

-- `while (header < tableEnd)`; `scan` is the fuel of `get_next`.
unfoldable pub find_from : ℕ → ℕ → ℕ → ℕ → ℕ → Bytes → ℕ
find_from zero scan header table_end type b = null
find_from (suc fuel) scan header table_end type b =
    let next = get_next scan header b in
    let rest = find_from fuel scan next table_end type b in
    if not (ltb header table_end)
    then null
    else if b header == type
    then header
    else if b header == end_of_table
    then null
    else if next == null
    then null
    else rest

-- `g_SMBIOS3` and `g_SMBIOS` are the entry points; NULL is 0.
unfoldable pub find_structure : ℕ → ℕ → ℕ → ℕ → ℕ → Bytes → ℕ
find_structure fuel scan smbios3 smbios type b =
    let start3 = field 8 (smbios3 + 16) b in
    let start = field 4 (smbios + 24) b in
    if not (smbios3 == null)
    then find_from fuel scan start3 (start3 + field 4 (smbios3 + 12) b) type b
    else if not (smbios == null)
    then find_from fuel scan start (start + field 2 (smbios + 22) b) type b
    else null

-- `while (*str != '\0') str++`
unfoldable pub skip_string : ℕ → ℕ → Bytes → ℕ
skip_string zero str b = str
skip_string (suc fuel) str b =
    let rest = skip_string fuel (str + 1) b in if b str == 0 then str else rest

-- `for (i = 1; i < index; i++)`, with the rounds that are left first; `none` is the empty literal.
unfoldable pub string_from : ℕ → ℕ → ℕ → Bytes → Option ℕ
string_from zero fuel str b = some str
string_from (suc left) fuel str b =
    let next = skip_string fuel str b + 1 in
    let rest = string_from left fuel next b in if b next == 0 then none else rest

unfoldable pub get_string : ℕ → ℕ → ℕ → Bytes → Option ℕ
get_string fuel header index b =
    if header == null || index == 0
    then none
    else string_from (index - 1) fuel (header + b (header + 1)) b
