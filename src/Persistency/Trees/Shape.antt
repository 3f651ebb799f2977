-- ===== src/Persistency/Trees/Shape.antt =====
-- What making directories leaves alone.
use minimal_autosar_adaptive.Prelude.{
  ◌≡◌, refl, Bool, nat_eq, list_eq, Bytes, List, [], ◌∷◌, ◌++◌, arith,
}
use minimal_autosar_adaptive.Persistency.Trees.{Place, Tree, make_dir, make_dirs}

-- Directories are made, files are not touched.
pub make_dirs-files :
    (makes : Place → Bool) (p : Place) (cs : List Bytes) (t : Tree)
    → (make_dirs makes p cs t).files ≡ t.files
unfolding make_dirs make_dir
make_dirs-files makes p [] t = refl
make_dirs-files makes p (c ∷ cs) t =
    let q = p ++ c ∷ [] in ground (arith, make_dirs-files makes q cs (make_dir makes q t))
