-- ===== src/Lkm/Registration.antt =====
-- src/lkm/volcom_rsucmngr.c: what the kernel module registers when it is loaded, and its removal.
-- What the kernel answers is an argument.
use e19_4yp_voluntary_comput.Prelude.{
  ℕ, ◌≡◌, refl, ◌⊎◌, inl, inr, Bool, true, false, not, Option, none, some, List, [], ◌∷◌, ◌++◌,
  if◌then◌else◌,
}
use e19_4yp_voluntary_comput.Prelude.Int.{ℤ, pos, negsuc}

-- The error of `misc_register`, as -(n + 1), if any; whether `kobject_create_and_add` gives an object;
-- and whether `sysfs_create_file` returns 0.
pub record Answers : Type 0 where
  pub register_error : Option ℕ
  pub creates_object : Bool
  pub creates_file : Bool

-- What the module registers.
pub data Registered : Type 0 where
  device : Registered
  object : Registered
  file : Registered

-- The calls that succeed, and those that remove.
pub data Call : Type 0 where
  added : Registered → Call
  removed : Registered → Call

-- -ENOMEM
abbrev pub enomem : ℤ
enomem = negsuc 11

abbrev pub with_object : Answers → ℤ × List Call
with_object k =
    if k.creates_file
    then (pos 0, added device ∷ added object ∷ added file ∷ [])
    else (enomem, added device ∷ added object ∷ removed object ∷ removed device ∷ [])

abbrev pub with_device : Answers → ℤ × List Call
with_device k =
    if not k.creates_object then (enomem, added device ∷ removed device ∷ []) else with_object k

abbrev pub registering : Answers → Option ℕ → ℤ × List Call
registering k (some e) = (negsuc e, [])
registering k none = with_device k

unfoldable pub resman_init : Answers → ℤ × List Call
resman_init k = registering k k.register_error

abbrev pub resman_exit : List Call
resman_exit = removed file ∷ removed object ∷ removed device ∷ []

-- What is held after some calls, the last first: only the last that is held can be removed.
abbrev pub same : Registered → Registered → Bool
same device device = true
same object object = true
same file file = true
same device object = false
same device file = false
same object device = false
same object file = false
same file device = false
same file object = false

abbrev pub after : Call → List Registered → Option (List Registered)
after (added r) held = some (r ∷ held)
after (removed r) [] = none
after (removed r) (last ∷ held) = if same r last then some held else none

abbrev pub on_held :
    (List Registered → Option (List Registered))
    → Option (List Registered)
    → Option (List Registered)
on_held next none = none
on_held next (some held) = next held

unfoldable pub held_after : List Call → List Registered → Option (List Registered)
held_after [] held = some held
held_after (call ∷ calls) held = on_held (held_after calls) (after call held)

-- With the result 0, all three are held and `resman_exit` leaves nothing; with an error, nothing is held.
abbrev pub TakesBack : ℤ × List Call → Type 0
TakesBack (result, calls) =
    ((result ≡ pos 0)
      × (held_after calls [] ≡ some (file ∷ object ∷ device ∷ []))
      × (held_after (calls ++ resman_exit) [] ≡ some []))
    ⊎ ((e : ℕ) × (result ≡ negsuc e) × (held_after calls [] ≡ some []))

with_object-TakesBack :
    (r : Option ℕ) (o f : Bool)
    → TakesBack (with_object (record { register_error = r; creates_object = o; creates_file = f }))
unfolding held_after
with_object-TakesBack r o true = inl (refl, refl, refl)
with_object-TakesBack r o false = inr (11, refl, refl)

-- Whatever the kernel answers: the module is loaded with the result 0 and holds all that it registers,
-- which its removal takes back; or it is not, and what was registered is taken back. What is taken
-- back is always what was registered last.
pub resman_init-TakesBack :
    (r : Option ℕ) (o f : Bool)
    → TakesBack (resman_init (record { register_error = r; creates_object = o; creates_file = f }))
unfolding resman_init held_after
resman_init-TakesBack (some e) o f = inr (e, refl, refl)
resman_init-TakesBack none false f = inr (11, refl, refl)
resman_init-TakesBack none true f = with_object-TakesBack none true f
