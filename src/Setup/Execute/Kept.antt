-- ===== src/Setup/Execute/Kept.antt =====
-- setup.rs: what keeps the nodes of the file system, but for those at some paths.
use salmon.Base.{
  text_eq, text_eq_refl, Bool, ◌||◌, Bool, true, false, some, ◌++◌, ◌≡◌, ap, ◌∙◌, arith, Text,
  codes, text_eq_iff, starts_with, starts_with-append, append-nil,
}
use salmon.Base.Maps.{get, insert, retain, contains_key, get-insert}
use salmon.Base.Maps.Laws.{get-retain_key}
use salmon.Files.{directory, Node, Files, path_join}
use salmon.Files.Keeps.{Preorder}
use salmon.Setup.Install.{below}

-- Every node stays, but for those at the paths that are let go.
abbrev pub KeptBut : (Text → Bool) → Files → Files → Type 0
KeptBut let_go before after =
    (path : Text) (node : Node)
    → let_go path ≡ false
    → get path before ≡ some node
    → get path after ≡ some node

pub KeptBut-Preorder : (let_go : Text → Bool) → Preorder (KeptBut let_go)
KeptBut-Preorder let_go = record {
  same = λ files path node h e. e;
  chain = λ a b c h k path node l e. k path node l (h path node l e);
}

pub insert_new-KeptBut :
    (let_go : Text → Bool) (path : Text) (new : Node) (files : Files)
    → contains_key path files ≡ false
    → KeptBut let_go files (insert path new files)
insert_new-KeptBut let_go path new files absent at node h e =
    ground (arith, get-insert path at new files, text_eq_iff path at)

pub insert_let_go-KeptBut :
    (let_go : Text → Bool) (path : Text) (new : Node) (files : Files)
    → let_go path ≡ true
    → KeptBut let_go files (insert path new files)
insert_let_go-KeptBut let_go path new files gone at node h e =
    ground (arith, get-insert path at new files, text_eq_iff path at)

pub retain-KeptBut :
    (let_go : Text → Bool) (keep : Text → Bool) (files : Files)
    → ((path : Text) → let_go path ≡ false → keep path ≡ true)
    → KeptBut let_go files (retain (λ path node. keep path) files)
retain-KeptBut let_go keep files h path node l e = get-retain_key keep path files (h path l) ∙ e

pub below_join : (saved name : Text) → below saved (path_join saved name) ≡ true
below_join saved name = or_right (text_eq (path_join saved name) saved) _ (
    ap (λ base. starts_with (path_join saved name) base) (append-nil (saved ++ codes "/"))
    ∙ starts_with-append (saved ++ codes "/") name)
  where
    or_right : (a b : Bool) → b ≡ true → (a || b) ≡ true
    or_right a b h = ground arith

pub below_itself : (saved : Text) → below saved saved ≡ true
below_itself saved = ground (arith, text_eq_refl saved)

pub made-KeptBut :
    (let_go : Text → Bool) (path : Text) (files : Files)
    → contains_key path files ≡ false
    → KeptBut let_go files (insert path directory files)
made-KeptBut let_go path files absent = insert_new-KeptBut let_go path directory files absent
