-- ===== src/Session/Artifacts.antt =====
-- ArtifactStore of artifacts/artifact_store.py. Files are texts by their paths.
pub mod RoundTrip
use Prim.Native.Char.{code}
use Prim.Native.String.{◌++◌ as str_append, len, count, slice}
use text.Mathlib.Text.{starts_with}
use sql_self_healing_agent.Prelude.{
  ℕ, ◌+◌, ◌/◌, String, ◌==◌, Bool, true, false, not, ◌&&◌, ◌||◌, Option, none, some, if◌then◌else◌,
  truthy, text_or, same_text, is_none, nat_eq,
}
use sql_self_healing_agent.Repair.Words.{codes}
use sql_self_healing_agent.Session.Models.{ArtifactRef}
use sql_self_healing_agent.Session.World.{
  Failure, raised, Result, ok, err, World, Action, pure, raise, or_raise, ◌>>=◌, ◌>>◌, Host, Saved,
  update, utc_now_iso, uuid4,
}

infixr 66 ◌/+◌
-- `a / b` of paths
abbrev pub ◌/+◌ : String → String → String
a /+ b = str_append a (String.◌∷◌ "/" b)

-- `write_text_atomic`, which on POSIX writes the text as it is
unfoldable pub write_text : String → String → Action (Unit {0})
write_text path text w = (ok tt, record w { files = update path (some text) w.files })

-- Universal newlines, in which `Path.read_text` reads: a carriage return, with a line feed after it or
-- not, is read as a line feed. `returned` tells that a carriage return has just been read.
unfoldable pub universal_newlines : Bool → String → String
universal_newlines returned String.[] = ""
universal_newlines returned (String.◌∷◌ c s) =
    let skipped = universal_newlines false s in
    let line = String.◌∷◌ "\n" (universal_newlines true s) in
    let kept = String.◌∷◌ c (universal_newlines false s) in
    if nat_eq (code c) 13 then line else if returned && nat_eq (code c) 10 then skipped else kept

-- `path.read_text()`
unfoldable pub read_text : String → Action String
read_text path = do
  text ← (λ w. or_raise (w.files path) (raised "FileNotFoundError") w)
  pure (universal_newlines false text)

-- The prefix of the paths of an owner, `artifact://<session>/<attempt or _session>/`
unfoldable pub owner_prefix : String → Option String → String
owner_prefix session_id attempt_id =
    str_append "artifact://" (session_id /+ (text_or attempt_id "_session" /+ ""))

-- `text.removeprefix(prefix)` where the text starts with it
abbrev pub remove_prefix : String → String → String
remove_prefix text prefix = slice text (len prefix) (len text)

module _ (h : Host) where
  -- `_artifact_path`; `none` is a ValueError
  unfoldable pub artifact_path : String → Option String → String → Option String
  artifact_path session_id attempt_id name =
      if not (h.file_name name == name) || not (truthy name)
      then none
      else some (elim attempt_id [
        | none ↦ h.base_dir /+ (session_id /+ ("artifacts" /+ name))
        | some a ↦ h.base_dir /+ (session_id /+ ("attempts" /+ (a /+ ("artifacts" /+ name))))
      ])

  -- `_legacy_artifact_path`
  unfoldable pub legacy_artifact_path : String → String → String → String
  legacy_artifact_path session_id attempt_id name =
      h.base_dir /+ (session_id /+ ("artifacts" /+ (attempt_id /+ name)))

  -- `_build_ref`. The name of the path is the plain name that was checked.
  unfoldable pub build_ref : String → Option String → String → String → String → Action ArtifactRef
  build_ref session_id attempt_id artifact_type name content = do
    identifier ← uuid4 h
    now ← utc_now_iso h
    pure (record {
      artifact_id = str_append "art_" identifier;
      session_id = session_id;
      attempt_id = attempt_id;
      artifact_type = artifact_type;
      path = str_append (owner_prefix session_id attempt_id) name;
      content_hash = h.sha256 (codes content);
      size_bytes = len content;
      token_estimate = (count content + 3) / 4;
      sanitized = true;
      created_at = now;
    })

  unfoldable pub save_text_ref :
      String → Option String → String → String → String → Action ArtifactRef
  unfolding write_text
  save_text_ref session_id attempt_id name content artifact_type = do
    path ← or_raise (artifact_path session_id attempt_id name) (raised "ValueError")
    write_text path (h.sanitize content)
    build_ref session_id attempt_id artifact_type name (h.sanitize content)

  unfoldable pub save_json_ref :
      String → Option String → String → Saved → String → Action ArtifactRef
  unfolding save_text_ref
  save_json_ref session_id attempt_id name payload artifact_type =
      save_text_ref session_id attempt_id name (h.dumps payload) artifact_type

  -- `_resolve`, of the path of a reference below the prefix of its owner
  unfoldable pub locate : Bool → String → Option String → String → String → Result String
  locate sanitized session_id attempt_id prefix path =
      if not sanitized
      then err (raised "ArtifactAccessError")
      else if not (starts_with path prefix)
      then err (raised "ArtifactAccessError")
      else elim (artifact_path session_id attempt_id (remove_prefix path prefix)) [
        | none ↦ err (raised "ValueError")
        | some path' ↦ ok path'
      ]

  unfoldable pub resolve : ArtifactRef → Result String
  resolve ref =
      let prefix = owner_prefix ref.session_id ref.attempt_id in
      locate ref.sanitized ref.session_id ref.attempt_id prefix ref.path

  -- `exists`, in the files as they are
  unfoldable pub exists : ArtifactRef → World → Bool
  exists ref w = elim (resolve ref) [ err _ ↦ false | ok path ↦ not (is_none (w.files path)) ]

  unfoldable pub read_path : ArtifactRef → Result String → Action String
  read_path ref (err e) = raise e
  read_path ref (ok path) = do
    content ← read_text path
    if h.sha256 (codes content) == ref.content_hash
        then pure content
        else raise (raised "ArtifactIntegrityError")

  -- `load` for an owner, without a limit on the characters
  unfoldable pub load : ArtifactRef → String → Option String → Action String
  unfolding read_path read_text
  load ref session_id attempt_id =
      if not (ref.session_id == session_id)
      then raise (raised "ArtifactAccessError")
      else if not (is_none attempt_id) && not (same_text ref.attempt_id attempt_id)
      then raise (raised "ArtifactAccessError")
      else read_path ref (resolve ref)

  -- `save_json` and `save_text`, which give the path
  unfoldable pub save_json : String → String → String → Saved → Action String
  save_json session_id attempt_id name payload = do
    let path = legacy_artifact_path session_id attempt_id name
    write_text path (h.sanitize (h.dumps payload))
    pure path

  unfoldable pub save_text : String → String → String → String → Action String
  save_text session_id attempt_id name text = do
    let path = legacy_artifact_path session_id attempt_id name
    write_text path (h.sanitize text)
    pure path
