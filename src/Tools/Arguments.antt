-- ===== src/Tools/Arguments.antt =====
-- What the tool of src/service/tool/vm_create.go reads of its arguments.
use spacetrek.Prelude.{
  arith, trim_space, ◌≢◌, [], ◌∷◌, ◌≤◌, pos, negsuc, lookup, ◌≡◌, refl, sym, true, Option, none,
  some, Text, codes, ℤ,
}
use spacetrek.Tools.{
  Arg, null, text, number, boolean, array, object, Call, nonempty, trimmed, as_text,
  read_string_arg,
}
use spacetrek.Tools.Create.{in_port_range, as_port, requested_port}

-- The port argument, where it is a number.
abbrev pub port_of : Option Arg → Option ℤ
port_of (some (number n)) = some n
port_of _ = none

-- No port, or one between 1 and 65535.
abbrev pub IsPort : Option ℤ → Type 0
IsPort none = Unit
IsPort (some (pos n)) = (1 ≤ n) × (n ≤ 65535)
IsPort (some (negsuc n)) = 1 ≤ 0

-- The environment argument: a text that is not blank, without the blanks around it.
abbrev pub IsType : Option Arg → Text → Type 0
IsType (some (text t)) env_type = (trim_space t ≡ env_type) × (env_type ≢ [])
IsType _ env_type = 1 ≤ 0

nonempty-some : (u t : Text) → nonempty u ≡ some t → (u ≡ t) × (t ≢ [])
nonempty-some [] t h = absurd (cc)
nonempty-some (c ∷ cs) t h = (cc, λ e. absurd (cc))

some-nonempty : (u t : Text) → u ≡ t → t ≢ [] → nonempty u ≡ some t
some-nonempty [] t h n = absurd (n (sym h))
some-nonempty (c ∷ cs) t h n = cc

IsType-of : (o : Option Arg) (t : Text) → trimmed (as_text o) ≡ some t → IsType o t
IsType-of none t h = absurd (cc)
IsType-of (some null) t h = absurd (cc)
IsType-of (some (text u)) t h = nonempty-some (trim_space u) t h
IsType-of (some (number n)) t h = absurd (cc)
IsType-of (some (boolean b)) t h = absurd (cc)
IsType-of (some (array as')) t h = absurd (cc)
IsType-of (some (object fs)) t h = absurd (cc)

trimmed-as_text : (o : Option Arg) (t : Text) → IsType o t → trimmed (as_text o) ≡ some t
trimmed-as_text none t h = absurd (omega arith)
trimmed-as_text (some null) t h = absurd (omega arith)
trimmed-as_text (some (text u)) t (h, n) = some-nonempty (trim_space u) t h n
trimmed-as_text (some (number n)) t h = absurd (omega arith)
trimmed-as_text (some (boolean b)) t h = absurd (omega arith)
trimmed-as_text (some (array as')) t h = absurd (omega arith)
trimmed-as_text (some (object fs)) t h = absurd (omega arith)

pub read-typed :
    (call : Call) (t : Text)
    → IsType (lookup (codes "environment") call.arguments) t
    → read_string_arg (codes "environment") call.arguments ≡ some t
unfolding read_string_arg
read-typed call t h = trimmed-as_text (lookup (codes "environment") call.arguments) t h

pub typed-read :
    (call : Call) (t : Text)
    → read_string_arg (codes "environment") call.arguments ≡ some t
    → IsType (lookup (codes "environment") call.arguments) t
unfolding read_string_arg
typed-read call t h = IsType-of (lookup (codes "environment") call.arguments) t h

pub requested_port-of :
    (call : Call)
    → requested_port call.arguments ≡ port_of (lookup (codes "service_port") call.arguments)
unfolding requested_port
requested_port-of call = by_arg (lookup (codes "service_port") call.arguments)
  where
    by_arg : (o : Option Arg) → as_port o ≡ port_of o
    by_arg none = refl
    by_arg (some null) = refl
    by_arg (some (text t)) = refl
    by_arg (some (number n)) = refl
    by_arg (some (boolean b)) = refl
    by_arg (some (array as')) = refl
    by_arg (some (object fs)) = refl

pub ranged : (n : ℤ) → in_port_range n ≡ true → IsPort (some n)
ranged (pos n) h = ground arith
ranged (negsuc n) h = absurd (cc)

pub in_range : (n : ℤ) → IsPort (some n) → in_port_range n ≡ true
in_range (pos n) h = ground arith
in_range (negsuc n) h = absurd (omega arith)
