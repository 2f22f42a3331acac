-- ===== src/Alias/Insts/Total.antt =====
-- Steps that return and extend the context. One rule for each way in which the handlers are composed.
use tfa_project.Common.{◌≡◌, refl, Bool, true, false, Option, some, if◌then◌else◌}
use tfa_project.Alias.{AliasContext, IsWellFormed}
use tfa_project.Alias.Insts.{◌>>=◌}
use tfa_project.Alias.Insts.Nodes.{Extends, Extends-trans, Extends-refl}

abbrev pub Total : AliasContext → Option AliasContext → Type 0
Total c o = (d : AliasContext) × (o ≡ some d) × Extends c d

pub Total-some : (c d : AliasContext) → Extends c d → Total c (some d)
Total-some c d x = (d, refl, x)

pub Total-here : (c : AliasContext) → IsWellFormed c → Total c (some c)
Total-here c w = Total-some c c (Extends-refl c w)

pub Total-after :
    (c d : AliasContext) (o : Option AliasContext) → Extends c d → Total d o → Total c o
Total-after c d o x (e, ran, y) = (e, ran, Extends-trans x y)

pub Total-if :
    (c : AliasContext) (b : Bool) (x y : Option AliasContext)
    → Total c x
    → Total c y
    → Total c (if b then x else y)
Total-if c true x y s t = s
Total-if c false x y s t = t

pub Total->>= :
    (c : AliasContext) (m : Option AliasContext) (f : AliasContext → Option AliasContext)
    → Total c m
    → ((d : AliasContext) → IsWellFormed d → Total d (f d))
    → Total c (m >>= f)
Total->>= c m f (d, ran, x) t = rw ran (Total-after c d (f d) x (t d x.well_formed))
