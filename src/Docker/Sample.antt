-- ===== src/Docker/Sample.antt =====
-- A docker in memory that knows one container, on which the theorems are run.
use becky.Base.{[], ◌∷◌, Option, none, some, true, false, if◌then◌else◌}
use becky.Base.{list_eq, lists_eq, nat_eq}
use becky.Text.{Text, chars}
use becky.Text.Lossy.{starts_with}
use becky.Os.Memory.{Host, lookup, memory_os}
use becky.Runtime.Memory.{memory_runtime}
use becky.Utils.{Output}
use becky.Utils.Memory.{Program, memory_pipes}
use becky.Docker.{
  FxContainerDocker, from_image, DockerContainerHandle, DockerInspectContainer, MonitorTask,
}
use becky.Docker.Cli.{DockerHost}

abbrev done : Output
done = record { status = 0; stdout = []; stderr = [] }

abbrev no_such_container : Output
no_such_container = record {
  status = 256;
  stdout = [];
  stderr = chars "Error: No such container: web\n";
}

-- The container is there once it was created.
unfoldable inspected : Option Text → Output
inspected none = no_such_container
inspected (some text) = done

unfoldable answer : Text → Host → Output × Host
unfolding starts_with lookup inspected memory_os
answer line w =
    if starts_with line (chars "create")
    then (done, (memory_os.write (chars "web" ∷ []) [] w).1)
    else (if starts_with line (chars "container inspect")
        then (inspected (lookup (chars "web" ∷ []) w.files), w)
        else (done, w))

abbrev pub docker_program : Program
unfolding answer
docker_program = record { answer = answer; time = 20 }

abbrev pub web_container : DockerInspectContainer
web_container = record {
  id = chars "abc";
  name = chars "/web";
  state = record {
    pid = 42;
    running = true;
    paused = false;
    status = chars "running";
    started_at = chars "2026-05-26T10:00:00Z";
  };
}

unfoldable pub docker_host : DockerHost Host
unfolding memory_runtime memory_pipes answer
docker_host = record {
  runtime = memory_runtime MonitorTask;
  pipes = memory_pipes docker_program;
  parse_containers = λ output. some (web_container ∷ []);
  parse_rfc3339 = λ text. some 0;
  utc_now = λ w. (w.time, w);
}

abbrev pub web : FxContainerDocker
web = from_image (chars "web") (chars "nginx")

abbrev pub handle : DockerContainerHandle
handle = record {
  id = chars "abc";
  name = chars "web";
  created = false;
  latest_state = 7;
  monitor = some 8;
}
