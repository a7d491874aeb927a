-- ===== src/Jobspec/Scripts.antt =====
-- internal/jobspec/helpers.go: the shell scripts of the helper jobs, line by line.
use ai_model_scheduler.Base.{sprint, join, String, [], ◌∷◌}
use ai_model_scheduler.Jobspec.Job.{Env}

unfoldable pub indexer_script : Env → String
indexer_script env = join "\n" (
    "set -e"
    ∷ sprint ("M=" ∷ env.model_mount ∷ [])
    ∷ "find \"$M\" -type f -name '*.gguf' ! -path \"$M/ollama/*\" 2>/dev/null | while read -r f; do"
    ∷ "  case \"$f\" in *\\\"*) continue;; esac"
    ∷ "  sz=$(stat -c %s \"$f\" 2>/dev/null || echo 0)"
    ∷ "  printf '{\"kind\":\"gguf\",\"path\":\"%s\",\"size_bytes\":%s}\\n' \"${f#\"$M\"/}\" \"$sz\""
    ∷ "done"
    ∷ "find \"$M\" -type f -name 'config.json' ! -path \"$M/ollama/*\" 2>/dev/null | while read -r f; do"
    ∷ "  case \"$f\" in *\\\"*) continue;; esac"
    ∷ "  d=$(dirname \"$f\")"
    ∷ "  sz=$(du -sk \"$d\" 2>/dev/null | cut -f1 || echo 0)"
    ∷ "  printf '{\"kind\":\"hf-dir\",\"path\":\"%s\",\"size_bytes\":%s}\\n' \"${d#\"$M\"/}\" \"$((${sz:-0} * 1024))\""
    ∷ "done"
    ∷ "true"
    ∷ [])

unfoldable pub gpu_probe_script : String
gpu_probe_script = join "\n" (
    "apk add -q --no-cache pciutils ca-certificates 2>/dev/null || true"
    ∷ "update-pciids -q >/dev/null 2>&1 || true" ∷ "i=0" ∷ "for d in /sys/bus/pci/devices/*; do"
    ∷ "  class=$(cat \"$d/class\" 2>/dev/null) || continue"
    ∷ "  case \"$class\" in 0x03*) ;; *) continue;; esac"
    ∷ "  ven=$(cat \"$d/vendor\"); dev=$(cat \"$d/device\"); pci=$(basename \"$d\")"
    ∷ "  case \"$ven\" in" ∷ "    0x10de) vendor=nvidia;;" ∷ "    0x1002) vendor=amd;;"
    ∷ "    0x8086) vendor=intel;;" ∷ "    *) vendor=other;;" ∷ "  esac" ∷ "  name=\"\""
    ∷ "  if [ \"$vendor\" = nvidia ] && [ -r \"/proc/driver/nvidia/gpus/$pci/information\" ]; then"
    ∷ "    name=$(sed -n 's/^Model:[[:space:]]*//p' \"/proc/driver/nvidia/gpus/$pci/information\" | head -n1)"
    ∷ "  fi" ∷ "  if [ -z \"$name\" ] && command -v lspci >/dev/null 2>&1; then"
    ∷ "    name=$(lspci -mm -s \"$pci\" 2>/dev/null | awk -F'\"' '{print $4\" \"$6}' | sed 's/Advanced Micro Devices, Inc\\. \\[AMD\\/ATI\\]/AMD/; s/Intel Corporation/Intel/; s/NVIDIA Corporation/NVIDIA/')"
    ∷ "  fi" ∷ "  [ -z \"$name\" ] && name=\"$vendor device ${ven#0x}:${dev#0x}\""
    ∷ "  name=$(printf '%s' \"$name\" | tr -d '\"\\\\')"
    ∷ "  printf '{\"index\":%s,\"vendor\":\"%s\",\"name\":\"%s\",\"pci\":\"%s\"}\\n' \"$i\" \"$vendor\" \"$name\" \"$pci\""
    ∷ "  i=$((i+1))" ∷ "done" ∷ "true" ∷ [])

unfoldable pub gpu_stats_script : String
gpu_stats_script = join "\n" (
    "while true; do" ∷ "  ts=$(date +%s)" ∷ "  gpus=\"\""
    ∷ "  for d in /sys/class/drm/card*/device; do" ∷ "    [ -e \"$d/vendor\" ] || continue"
    ∷ "    [ \"$(cat \"$d/vendor\")\" = \"0x1002\" ] || continue"
    ∷ "    pci=$(basename \"$(readlink -f \"$d\")\")"
    ∷ "    busy=$(cat \"$d/gpu_busy_percent\" 2>/dev/null) || busy=-1"
    ∷ "    vu=$(cat \"$d/mem_info_vram_used\" 2>/dev/null) || vu=0"
    ∷ "    vt=$(cat \"$d/mem_info_vram_total\" 2>/dev/null) || vt=0"
    ∷ "    # hwmon reads can fail transiently (EBUSY while the card is power-gated),"
    ∷ "    # so validate the value before doing arithmetic: a bad expansion in dash"
    ∷ "    # kills the whole loop, not just this sample." ∷ "    temp=-1"
    ∷ "    tf=$(ls \"$d\"/hwmon/hwmon*/temp1_input 2>/dev/null | head -n1)" ∷ "    tv=\"\""
    ∷ "    [ -n \"$tf\" ] && tv=$(cat \"$tf\" 2>/dev/null)"
    ∷ "    case \"$tv\" in ''|*[!0-9]*) ;; *) temp=$((tv / 1000));; esac" ∷ "    pw=-1"
    ∷ "    pf=$(ls \"$d\"/hwmon/hwmon*/power1_average 2>/dev/null | head -n1)"
    ∷ "    [ -z \"$pf\" ] && pf=$(ls \"$d\"/hwmon/hwmon*/power1_input 2>/dev/null | head -n1)"
    ∷ "    pv=\"\"" ∷ "    [ -n \"$pf\" ] && pv=$(cat \"$pf\" 2>/dev/null)"
    ∷ "    case \"$pv\" in ''|*[!0-9]*) ;; *) pw=$((pv / 1000000));; esac"
    ∷ "    g=$(printf '{\"vendor\":\"amd\",\"pci\":\"%s\",\"util_percent\":%s,\"vram_used_bytes\":%s,\"vram_total_bytes\":%s,\"temp_c\":%s,\"power_w\":%s}' \"$pci\" \"$busy\" \"$vu\" \"$vt\" \"$temp\" \"$pw\")"
    ∷ "    gpus=\"${gpus:+$gpus,}$g\"" ∷ "  done"
    ∷ "  if command -v nvidia-smi >/dev/null 2>&1; then"
    ∷ "    nvidia-smi --query-gpu=name,utilization.gpu,memory.used,memory.total,temperature.gpu,power.draw --format=csv,noheader,nounits 2>/dev/null | sed 's/, /,/g' > /tmp/nv.csv || true"
    ∷ "    while IFS=, read -r name util mu mt temp pw; do" ∷ "      [ -n \"$name\" ] || continue"
    ∷ "      case \"$util\" in ''|*[!0-9]*) util=-1;; esac"
    ∷ "      case \"$mu\" in ''|*[!0-9]*) mu=0;; esac"
    ∷ "      case \"$mt\" in ''|*[!0-9]*) mt=0;; esac"
    ∷ "      case \"$temp\" in ''|*[!0-9]*) temp=-1;; esac"
    ∷ "      case \"$pw\" in ''|*[!0-9.]*) pw=-1;; esac"
    ∷ "      name=$(printf '%s' \"$name\" | tr -d '\"\\\\')"
    ∷ "      g=$(printf '{\"vendor\":\"nvidia\",\"name\":\"%s\",\"util_percent\":%s,\"vram_used_bytes\":%s,\"vram_total_bytes\":%s,\"temp_c\":%s,\"power_w\":%s}' \"$name\" \"$util\" \"$((mu*1048576))\" \"$((mt*1048576))\" \"$temp\" \"$pw\")"
    ∷ "      gpus=\"${gpus:+$gpus,}$g\"" ∷ "    done < /tmp/nv.csv" ∷ "  fi"
    ∷ "  printf '{\"ts\":%s,\"gpus\":[%s]}\\n' \"$ts\" \"$gpus\"" ∷ "  sleep 5" ∷ "done" ∷ [])

unfoldable pub hf_download_script : Env → String
hf_download_script env = join "\n" (
    "set -e"
    ∷ "export PIP_ROOT_USER_ACTION=ignore"
    ∷ "pip install --quiet 'huggingface_hub>=0.34'"
    ∷ sprint (
        "echo \"downloading $NOMAD_META_repo_id -> " ∷ env.model_mount ∷ "/$NOMAD_META_dest\"" ∷ [])
    ∷ "hf download \"$NOMAD_META_repo_id\" \\"
    ∷ "  ${NOMAD_META_revision:+--revision \"$NOMAD_META_revision\"} \\"
    ∷ "  ${NOMAD_META_include:+--include \"$NOMAD_META_include\"} \\"
    ∷ "  --max-workers 2 \\"
    ∷ sprint ("  --local-dir \"" ∷ env.model_mount ∷ "/$NOMAD_META_dest\"" ∷ [])
    ∷ "echo \"download complete\""
    ∷ [])
