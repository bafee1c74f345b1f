-- ===== src/Backends/Create.antt =====
-- backend_create of src/backends.c.
use nftlb.Prelude.{
  ℕ, ◌+◌, ◌≡◌, refl, sym, ap, ◌∙◌, String, Bool, true, false, ◌&&◌, List, [], ◌∷◌, ◌++◌, none, pos,
  negsuc, ◌+ℤ◌, +ℤ_zero, count, count-append, any, arith, leb, length, length-append, if◌then◌else◌,
}
use nftlb.Enums.{State, Action}
use nftlb.Model.{Backend, Farm}
use nftlb.Backends.Predicates.{
  backend_is_available, backend_is_usable, backend_validate, backend_no_port,
}
use nftlb.Backends.Marks.{backend_gen_next_mark}
use nftlb.Backends.Counters.{sum_weight, IsCounted}
use nftlb.Backends.Setters.{has_srcaddr}
use nftlb.Backends.Flags.{IsPortFlag, IsSrcaddrFlag}

unfoldable pub new_backend : ℕ → String → List Farm → Backend
unfolding backend_gen_next_mark
new_backend id name farms = record {
  id = id;
  action = Action.start;
  name = name;
  fqdn = "";
  ipaddr = none;
  ethaddr = none;
  ofidx = negsuc 0;
  oface = none;
  port = "";
  srcaddr = none;
  weight = pos 1;
  priority = 1;
  mark = backend_gen_next_mark farms;
  estconnlimit = pos 0;
  estconnlimit_logprefix = "KNAME-FNAME-BNAME ";
  state = State.conferr;
}

-- `id` is the address of the new node, and `farms` are all farms, among them `f`.
unfoldable pub backend_create : ℕ → String → List Farm → Farm → Farm
unfolding new_backend
backend_create id name farms f = record f {
  bcks_have_port = 0;
  backends = f.backends ++ new_backend id name farms ∷ [];
  total_bcks = f.total_bcks + 1;
}

if_same : (q : Bool) → (if q then true else true) ≡ true
if_same true = refl
if_same false = refl

if_none : (q : Bool) → (if q then true else false) ≡ q
if_none true = refl
if_none false = refl

any-append :
    (p : Backend → Bool) (bs : List Backend) (b : Backend)
    → any p (bs ++ b ∷ []) ≡ (if any p bs then true else p b)
any-append p [] b = ground arith
any-append p (x ∷ xs) b = ground (arith, any-append p xs b)

sum_weight-append :
    (p : Backend → Bool) (bs : List Backend) (b : Backend)
    → p b ≡ false
    → sum_weight p (bs ++ b ∷ []) ≡ sum_weight p bs
sum_weight-append p [] b h = rw h (+ℤ_zero (pos 0))
sum_weight-append p (x ∷ xs) b h =
    ap (λ s. (if p x then x.weight else pos 0) +ℤ s) (sum_weight-append p xs b h)

count_one_more :
    (p : Backend → Bool) (bs : List Backend) (b : Backend)
    → p b ≡ false
    → count p (bs ++ b ∷ []) ≡ count p bs
count_one_more p bs b h = count-append p bs (b ∷ []) ∙ rw h (omega arith)

and_false : (p q : Bool) → (p && false && q) ≡ false
and_false true q = refl
and_false false q = refl

-- The flags and counters of a farm are what they count.
pub record IsConsistent (f : Farm) : Type 0 where
  pub counted : IsCounted f
  pub port_flag : IsPortFlag f
  pub srcaddr_flag : IsSrcaddrFlag f
  pub total : f.total_bcks ≡ length f.backends

-- A new backend in a farm whose counters, flag for source addresses and total are exact, whatever its
-- flag for ports is, as in a farm with no backend: after backend_create all of them are exact, and the
-- flag for ports too. The new backend adds to none of the counters but the total.
pub backend_create-IsConsistent :
    (id : ℕ) (name : String) (farms : List Farm) (f : Farm)
    → IsCounted f
    → IsSrcaddrFlag f
    → f.total_bcks ≡ length f.backends
    → IsConsistent (backend_create id name farms f)
      × (((backend_create id name farms f).bcks_available ≡ f.bcks_available)
          × ((backend_create id name farms f).bcks_usable ≡ f.bcks_usable)
          × ((backend_create id name farms f).total_weight ≡ f.total_weight))
unfolding backend_create new_backend backend_is_available backend_is_usable backend_no_port
backend_create-IsConsistent id name farms f counted srcaddr total =
    let b = new_backend id name farms in
    let unavailable : backend_is_available f b ≡ false =
      and_false (backend_validate f b) (leb b.priority f.priority) in
    (
      record {
        counted = record {
          available =
              counted.available
              ∙ sym (count_one_more (backend_is_available f) f.backends b unavailable);
          usable = counted.usable ∙ sym (count_one_more (backend_is_usable f) f.backends b refl);
          weight =
              counted.weight
              ∙ sym (sum_weight-append (backend_is_available f) f.backends b unavailable);
        };
        port_flag =
            rw (any-append backend_no_port f.backends b, if_same (any backend_no_port f.backends))
              refl;
        srcaddr_flag =
            rw (any-append has_srcaddr f.backends b, if_none (any has_srcaddr f.backends)) srcaddr;
        total = omega (arith, total, length-append f.backends (b ∷ []));
      },
      (refl, refl, refl),
    )
