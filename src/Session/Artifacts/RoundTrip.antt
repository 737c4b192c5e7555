-- ===== src/Session/Artifacts/RoundTrip.antt =====
-- `save_text_ref` followed by `load` and `exists` (artifacts/artifact_store.py).
use Prim.Native.Char.{code}
use Prim.Native.String.{◌++◌ as str_append}
use text.Mathlib.TextPositions.{starts_with-append, slice-append_right, len-append}
use sql_self_healing_agent.Prelude.{
  String, ◌==◌, ◌≡◌, refl, ap, ◌∙◌, Bool, true, false, not, ◌&&◌, ◌||◌, nat_eq, is_none,
  if◌then◌else◌, Option, none, some, truthy, eq_refl, arith, same_text,
}
use sql_self_healing_agent.Repair.Words.{codes}
use sql_self_healing_agent.Session.Models.{ArtifactRef}
use sql_self_healing_agent.Session.World.{
  ok, err, raised, World, Host, pure, raise, or_raise, bind-ok,
}
use sql_self_healing_agent.Session.Artifacts.{
  remove_prefix, owner_prefix, artifact_path, resolve, save_text_ref, exists, load, locate,
  read_path, read_text, write_text, build_ref, universal_newlines,
}

-- Behind the prefix stands the name.
remove_prefix-append : (p n : String) → remove_prefix (str_append p n) p ≡ n
remove_prefix-append p n = rw len-append (slice-append_right p n)

same_text_refl : (o : Option String) → same_text o o ≡ true
same_text_refl none = refl
same_text_refl (some s) = eq_refl s

and_false : (b : Bool) → (b && false) ≡ false
and_false true = refl
and_false false = refl

-- A text has a carriage return.
abbrev pub has_return : String → Bool
has_return String.[] = false
has_return (String.◌∷◌ c s) = nat_eq (code c) 13 || has_return s

-- A text without a carriage return is read as it is.
universal_newlines_same : (s : String) → has_return s ≡ false → universal_newlines false s ≡ s
unfolding universal_newlines
universal_newlines_same String.[] h = refl
universal_newlines_same (String.◌∷◌ c s) h =
    let rest = universal_newlines_same s (ground arith) in
    let other : nat_eq (code c) 13 ≡ false = ground arith in rw (other, rest) refl

module _ (h : Host) where
  -- A name is plain: it is not empty, and is its own `Path(name).name`.
  abbrev pub IsPlain : String → Type 0
  IsPlain name = (h.file_name name ≡ name) × (truthy name ≡ true)

  artifact_path_plain :
      (session_id : String) (attempt_id : Option String) (name : String)
      → IsPlain name
      → (path : String) × (artifact_path h session_id attempt_id name ≡ some path)
  unfolding artifact_path
  artifact_path_plain session_id attempt_id name (same, full) = rw (same, eq_refl, full) (_, refl)

  locate_owned :
      (session_id : String) (attempt_id : Option String) (prefix name : String)
      → (path : String) → artifact_path h session_id attempt_id name ≡ some path
      → locate h true session_id attempt_id prefix (str_append prefix name) ≡ ok path
  unfolding locate
  locate_owned session_id attempt_id prefix name path e =
      rw (starts_with-append, remove_prefix-append prefix name, e)

  exists_of_file :
      (ref : ArtifactRef) (path content : String) (w : World)
      → resolve h ref ≡ ok path
      → w.files path ≡ some content
      → exists h ref w ≡ true
  unfolding exists
  exists_of_file ref path content w r f = rw (r, exists) (rw f refl)

  read_file :
      (path content : String) (w : World)
      → w.files path ≡ some content
      → read_text path w ≡ (ok (universal_newlines false content), w)
  unfolding read_text
  read_file path content w f =
      bind-ok (λ v. or_raise (v.files path) (raised "FileNotFoundError") v)
        (λ text. pure (universal_newlines false text)) {w = w}
        (ap (λ o. or_raise o (raised "FileNotFoundError") w) f)

  checked :
      (content : String) (w : World) (same : Bool)
      → (if same then pure content else raise (raised "ArtifactIntegrityError")) w
        ≡ ((if same then ok content else err (raised "ArtifactIntegrityError")), w)
  checked content w true = refl
  checked content w false = refl

  load_of_file :
      (ref : ArtifactRef) (path content : String) (w : World)
      → resolve h ref ≡ ok path
      → w.files path ≡ some content
      → ref.content_hash ≡ h.sha256 (codes content)
      → load h ref ref.session_id ref.attempt_id w ≡ (
        (if h.sha256 (codes (universal_newlines false content)) == h.sha256 (codes content)
            then ok (universal_newlines false content)
            else err (raised "ArtifactIntegrityError")),
        w,
      )
  unfolding load read_path
  load_of_file ref path content w r f d =
      rw (eq_refl, same_text_refl ref.attempt_id, and_false (not (is_none ref.attempt_id)), r)
        (bind-ok (read_text path)
            (λ text.
              if h.sha256 (codes text) == ref.content_hash
              then pure text
              else raise (raised "ArtifactIntegrityError"))
            {w = w} (read_file path content w f)
          ∙ rw d (
              checked _ w
                (h.sha256 (codes (universal_newlines false content)) == h.sha256 (codes content))))

  -- What `save_text_ref` writes under a plain name is there, says `exists`, and `load` gives it to the
  -- owner, with the files as they are: the sanitized text, if that has no carriage return. If the
  -- hash of the sanitized text with its newlines translated is another than that of the text, `load`
  -- raises ArtifactIntegrityError.
  pub load-save_text_ref :
      (session_id : String) (attempt_id : Option String) (name content artifact_type : String)
      (w : World)
      → IsPlain name
      → let (saved, w') = save_text_ref h session_id attempt_id name content artifact_type w in
        let text = h.sanitize content in
        (ref : ArtifactRef) × (saved ≡ ok ref)
        × (exists h ref w' ≡ true)
        × (has_return text ≡ false → load h ref session_id attempt_id w' ≡ (ok text, w'))
        × ((h.sha256 (codes (universal_newlines false text)) == h.sha256 (codes text)) ≡ false
            → load h ref session_id attempt_id w' ≡ (err (raised "ArtifactIntegrityError"), w'))
  unfolding save_text_ref build_ref write_text resolve
  load-save_text_ref session_id attempt_id name content artifact_type w plain =
      let (path, e) = artifact_path_plain session_id attempt_id name plain in
      let found =
        locate_owned session_id attempt_id (owner_prefix session_id attempt_id) name path e in
      rw e (
        _,
        refl,
        exists_of_file _ path (h.sanitize content) _ found (rw eq_refl refl),
        (λ clear.
            load_of_file _ path (h.sanitize content) _ found (rw eq_refl refl) refl
            ∙ rw (universal_newlines_same (h.sanitize content) clear, eq_refl) refl),
        (λ other.
            load_of_file _ path (h.sanitize content) _ found (rw eq_refl refl) refl
            ∙ rw other refl),
      )
