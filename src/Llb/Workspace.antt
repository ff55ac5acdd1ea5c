-- ===== src/Llb/Workspace.antt =====
-- The states around the pipelines: the workspace, its output directory, and what is copied.
use melange.Prelude.{true, false, [], ◌∷◌, some, String}
use melange.Prelude.Text.{◌<>◌, join_path}
use melange.Llb.Defs.{
  Llb, RunOption, args, custom_name, mkdir, copy, default_work_dir, melange_out_dir,
  default_cache_dir,
}

abbrev pub shell : String → RunOption
shell script = args ("/bin/sh" ∷ "-c" ∷ script ∷ [])

unfoldable pub workspace_output_dir : String → String
unfolding join_path
workspace_output_dir name = join_path (join_path default_work_dir melange_out_dir) name

module _ {S : Type 0} (llb : Llb S) where
  unfoldable pub setup_build_user : S → S
  setup_build_user base =
      llb.run
        (shell ("mkdir -p " <> (default_work_dir <> "\nmkdir -p /tmp\nchmod 1777 /tmp"))
          ∷ custom_name "setup build environment"
          ∷ [])
        base

  unfoldable pub prepare_workspace : S → String → S
  unfolding workspace_output_dir
  prepare_workspace base name =
      llb.file (mkdir (workspace_output_dir name) 493 true) (some "create output directory") (
        llb.run
          (shell (
              ("mkdir -p "
                <> (default_work_dir <> (" && chmod 755 " <> (default_work_dir <> " && "))))
              <> ("mkdir -p /tmp && chmod 1777 /tmp && "
                  <> ("mkdir -p "
                      <> (default_cache_dir <> (" && chmod 755 " <> default_cache_dir)))))
            ∷ custom_name "create workspace"
            ∷ [])
          base)

  unfoldable pub copy_source_to_workspace : S → String → S
  copy_source_to_workspace base name =
      llb.file (copy (llb.local name) "/" (default_work_dir <> "/") false)
        (some "copy source to workspace") base

  unfoldable pub export_workspace : S → S
  unfolding join_path
  export_workspace state =
      llb.file (copy state (join_path default_work_dir melange_out_dir) "/" false)
        (some "export workspace") llb.scratch

  unfoldable pub copy_cache_to_workspace : S → String → S
  copy_cache_to_workspace base name =
      llb.file (copy (llb.local name) "/" (default_cache_dir <> "/") true)
        (some "copy cache to workspace") base
